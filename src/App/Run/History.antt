-- ===== src/App/Run/History.antt =====
-- Runs one after another on one database.
use lanscope.Error.{Result}
use lanscope.Base.Text.{Bytes}
use mathlib.Core.Path.{subst}
use lanscope.App.Config.{RunArgs}
use lanscope.Storage.Sqlite.Upsert.{IsJson}
use lanscope.App.{Pipeline, load_all, seed_registry}
use lanscope.Registry.{new_registry, DeviceRegistry}
use lanscope.Storage.Sqlite.{sqlite_store, Tables, load_devices, Json, AlertRow}
use lanscope.Anomaly.Onnx.{Inference}
use lanscope.Base.Float.{Floats}
use lanscope.App.Run.{finished, Host, run}
use lanscope.App.Run.Ends.{LeavesStored, run-LeavesStored}
use lanscope.App.Loop.{Input, stopped}
use lanscope.App.Loop.Restored.{HasSources, IsRestorable}
use lanscope.App.Seeded.{AreStored}
use lanscope.Base.{Bool, ℕ, ◌∙◌, Option, ◌≡◌, refl, sym, none, inr, List}
use lanscope.Storage.Sqlite.Open.{Database, Disk, open_path, open_path-ok, saved, tables_of}

-- A database that has no table of devices yet.
abbrev pub no_devices : Option (List AlertRow) → Database
no_devices alerts = record { devices = none; alerts = alerts }

module _ (fl : Floats) (inf : Inference fl) (json : Json) where
  -- The registry and the tables that runs leave: none and those of a new database, or those of a run
  -- that has opened what the one before left, and has come to its end.
  pub data History : DeviceRegistry → Tables → Type 0 where
    new_database :
        (alerts : Option (List AlertRow)) → History new_registry (tables_of (no_devices alerts))
    next_run :
        {reg : DeviceRegistry} {before : Tables}
        → History reg before
        → (disk : Disk) (host : Host fl inf (sqlite_store json)) (args : RunArgs)
          (db : Option Bytes) (inputs : List Input) (ui : Result {0} Unit) (returns : Bool)
        → ((path : Bytes) → disk.connect path ≡ inr (saved before))
        → ((path : Bytes) → host.open_store path ≡ open_path disk path)
        → HasSources inputs
        → (q : Pipeline fl inf (sqlite_store json)) (n : ℕ)
        → run fl inf (sqlite_store json) host args db inputs ui returns ≡ finished (stopped q n)
        → History q.registry q.stored

  -- Where `serde_json` reads back what it writes and every discovery event has a source of six
  -- bytes: from a new database on, whatever the runs receive and however often the database is
  -- opened again, it holds valid devices, none twice, and a run that opens it starts with exactly
  -- the devices that the last one ended with.
  pub History-IsRestorable :
      {reg : DeviceRegistry} {tables : Tables}
      → History reg tables
      → IsJson json
      → AreStored (load_devices json tables) × IsRestorable fl inf json reg tables
  unfolding load_devices seed_registry load_all
  History-IsRestorable (new_database alerts) j = ((tt, tt), (new_registry, refl, λ m h. refl))
  History-IsRestorable
        (next_run {reg} {before} h disk host args db inputs ui returns held opens sources q n ends)
        j =
      subst (LeavesStored fl inf json) ends (
        run-LeavesStored fl inf json host args db inputs ui returns j
          (λ path tables opened.
            subst (λ t. AreStored (load_devices json t))
              (sym (
                open_path-ok disk path (saved before) tables (held path)
                  (sym (opens path) ∙ opened)))
              (History-IsRestorable h j).0)
          sources)
