-- ===== src/Storage/Sqlite/Failing.antt =====
-- The statements of lanscope/src/storage/sqlite.rs where they may fail. Which of them do is a
-- parameter. SQLite carries out a statement as a whole or not at all.
use lanscope.Base.{
  arith, ◌≡◌, All, ◌⊎◌, inl, inr, refl, Bool, true, false, List, [], ◌∷◌, Option, some, none,
}
use lanscope.Storage.{Store}
use lanscope.Storage.Sqlite.{recent_alerts, record_alert, upsert_device, load_devices, Tables, Json}

-- The tables, and whether each of the next statements succeeds; those after them do.
pub record Connection : Type 0 where
  pub tables : Tables
  pub outcomes : List Bool

run_statement : (Tables → Tables) → Tables → List Bool → Connection × Bool
run_statement change tables [] = (record { tables = change tables; outcomes = [] }, true)
run_statement change tables (true ∷ rest) =
    (record { tables = change tables; outcomes = rest }, true)
run_statement change tables (false ∷ rest) = (record { tables = tables; outcomes = rest }, false)

-- `self.conn.execute(…)`: the connection after it, and whether it is `Ok`
unfoldable pub execute : Connection → (Tables → Tables) → Connection × Bool
unfolding run_statement
execute conn change = run_statement change conn.tables conn.outcomes

-- `self.conn.prepare(…)` and the rows that it reads
unfoldable pub query {ℓ} : {A : Type ℓ} → Connection → (Tables → A) → Option A
query conn read = elim conn.outcomes [
  | [] ↦ some (read conn.tables)
  | true ∷ rest ↦ some (read conn.tables)
  | false ∷ rest ↦ none
]

-- The trait
abbrev pub failing_store : Json → Store
failing_store json = record {
  State = Connection;
  load_devices = λ conn. query conn (load_devices json);
  upsert_device = λ conn d. execute conn (λ db. upsert_device json db d);
  record_alert = λ conn a. execute conn (λ db. record_alert db a);
  recent_alerts = λ conn limit. query conn (λ db. recent_alerts db limit);
}

-- No statement fails any more.
abbrev pub IsWorking : Connection → Type 0
IsWorking conn = All (λ succeeds. succeeds ≡ true) conn.outcomes

run_statement_cases :
    (change : Tables → Tables) (tables : Tables) (outcomes : List Bool)
    → let after = (run_statement change tables outcomes).0.tables in
      (after ≡ tables) ⊎ (after ≡ change tables)
unfolding run_statement
run_statement_cases change tables [] = inr refl
run_statement_cases change tables (true ∷ rest) = inr refl
run_statement_cases change tables (false ∷ rest) = inl refl

run_statement_works :
    (change : Tables → Tables) (tables : Tables) (outcomes : List Bool)
    → All (λ succeeds. succeeds ≡ true) outcomes
    → let after = (run_statement change tables outcomes).0 in
      (after.tables ≡ change tables) × IsWorking after
unfolding run_statement
run_statement_works change tables [] w = (refl, tt)
run_statement_works change tables (true ∷ rest) w = (refl, w.1)
run_statement_works change tables (false ∷ rest) w = absurd (ground (arith, w.0))

-- A statement fails and changes nothing, or leaves what it makes of the tables.
pub execute_cases :
    (conn : Connection) (change : Tables → Tables)
    → ((execute conn change).0.tables ≡ conn.tables)
      ⊎ ((execute conn change).0.tables ≡ change conn.tables)
unfolding execute
execute_cases conn change = run_statement_cases change conn.tables conn.outcomes

-- One that does not fail does.
pub execute_works :
    (conn : Connection) (change : Tables → Tables)
    → IsWorking conn
    → ((execute conn change).0.tables ≡ change conn.tables) × IsWorking (execute conn change).0
unfolding execute
execute_works conn change w = run_statement_works change conn.tables conn.outcomes w
