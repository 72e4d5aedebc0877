-- ===== src/Storage/Sqlite/Open.antt =====
-- lanscope/src/storage/sqlite.rs: `open`, `open_in_memory` and `migrate`. The file system and the
-- connection of `rusqlite` are a parameter.
use lanscope.Error.{Result-cases, Error}
use lanscope.Base.{Option-cases, sym, ◌≡◌}
use lanscope.Storage.Sqlite.{AlertRow, Tables, DeviceRow}
use lanscope.Base.Text.{Bytes}
use lanscope.Base.{◌≡◌, Option, some, none, List, [], ◌⊎◌, inl, inr}
use lanscope.Error.{Error, Result, ok, err, io, storage, ◌>>=◌}

-- The tables that a database has.
pub record Database : Type 0 where
  pub devices : Option (List DeviceRow)
  pub alerts : Option (List AlertRow)

-- What the host does, each with the text of an error: the parent of a path, the directories that are
-- created, the database that is connected to, and how the batch of statements that creates the
-- tables ends.
pub record Disk : Type 0 where
  pub parent : Bytes → Option Bytes
  pub create_dir_all : Bytes → Option Bytes
  pub connect : Bytes → Bytes ⊎ Database
  pub connect_in_memory : Bytes ⊎ Database
  pub execute_batch : Database → Option Bytes

-- `CREATE TABLE IF NOT EXISTS`
abbrev pub created : {A : Type 0} → Option (List A) → List A
created none = []
created (some rows) = rows

abbrev pub tables_of : Database → Tables
tables_of db = record { devices = created db.devices; alerts = created db.alerts }

succeeds : Option Bytes → (Bytes → Error) → Result {0} Unit
succeeds none wrap = ok tt
succeeds (some e) wrap = err (wrap e)

connected : Bytes ⊎ Database → Result Database
connected (inl e) = err (storage e)
connected (inr db) = ok db

module _ (disk : Disk) where
  open disk use {parent, create_dir_all, connect, connect_in_memory, execute_batch}

  unfoldable pub migrate : Database → Result Tables
  unfolding succeeds
  migrate db = do
    done ← succeeds (execute_batch db) storage
    ok (record { devices = created db.devices; alerts = created db.alerts })

  -- `if let Some(parent) = path.parent() { … }`
  directory : Option Bytes → Result {0} Unit
  unfolding succeeds
  directory none = ok tt
  directory (some dir) = succeeds (create_dir_all dir) io

  unfoldable pub open_path : Bytes → Result Tables
  unfolding migrate directory connected
  open_path path = do made ← directory (parent path); db ← connected (connect path); migrate db

  unfoldable pub open_in_memory : Result Tables
  unfolding migrate connected
  open_in_memory = do db ← connected connect_in_memory; migrate db

-- What a file holds after tables were stored in it.
abbrev pub saved : Tables → Database
saved db = record { devices = some db.devices; alerts = some db.alerts }

-- Whatever else fails, what is opened is what the database holds: tables that are there are kept.
pub open_path-ok :
    (disk : Disk) (path : Bytes) (db : Database) (tables : Tables)
    → disk.connect path ≡ inr db
    → open_path disk path ≡ ok tables
    → tables ≡ tables_of db
unfolding open_path migrate succeeds connected
open_path-ok disk path db tables held opened =
    elim (Result-cases (directory disk (disk.parent path))) [
      | inr (e, failed) ↦ absurd (err-ok (rw failed at opened))
      | inl (made, there) ↦ elim (Option-cases (disk.execute_batch db)) [
        | inl done ↦ sym (ok-injective (rw (there, held, done) at opened))
        | inr (e, failed) ↦ absurd (err-ok (rw (there, held, failed) at opened))
      ]
    ]
  where
    err-ok : {e : Error} {t : Tables} → err e ≡ ok t → ⊥
    err-ok h = cc

    ok-injective : {a b : Tables} → ok a ≡ ok b → a ≡ b
    ok-injective h = cc
