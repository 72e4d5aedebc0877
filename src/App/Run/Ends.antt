-- ===== src/App/Run/Ends.antt =====
-- What `run` leaves for the next run.
use lanscope.App.Loop.{Outcome, capture_loop, received, closed, ticked, Input, shutdown_changed}
use lanscope.Base.{false, Bool, Bool-cases, ◌++◌, ◌≡◌, inl, inr, true, Option, some, List, [], ◌∷◌}
use lanscope.Base.Text.{Bytes}
use lanscope.Base.Float.{Floats}
use lanscope.Error.{Result-cases, Result, ok, err}
use lanscope.Storage.Sqlite.{Json, Tables, sqlite_store, load_devices}
use lanscope.Storage.Sqlite.Upsert.{IsJson}
use lanscope.Anomaly.Onnx.{Inference}
use lanscope.App.{Pipeline, seed_registry}
use lanscope.App.Config.{RunArgs, resolve_config}
use lanscope.App.Loop.Restored.{HasSources, IsRestored, capture_loop-IsRestored}
use lanscope.App.Synced.{IsSynced}
use lanscope.App.Seeded.{AreStored, load_all-IsSynced}
use lanscope.App.Run.{
  ended, installed, after_ui, Host, Ending, not_started, abandoned, finished, held_up, joined,
  start_up, run,
}

module _ (fl : Floats) (inf : Inference fl) (json : Json) where
  HasSources-append :
      (inputs : List Input)
      → HasSources inputs
      → HasSources (inputs ++ shutdown_changed (some true) ∷ [])
  HasSources-append [] h = tt
  HasSources-append (received ev now ∷ rest) h = (h.0, HasSources-append rest h.1)
  HasSources-append (closed ∷ rest) h = HasSources-append rest h
  HasSources-append (ticked ∷ rest) h = HasSources-append rest h
  HasSources-append (shutdown_changed res ∷ rest) h = HasSources-append rest h

  -- A loop that has ended has left good tables that restore its registry.
  abbrev pub LeavesStored : Ending fl inf (sqlite_store json) → Type 0
  LeavesStored (not_started e) = Unit
  LeavesStored (abandoned e) = Unit
  LeavesStored (finished o) = IsRestored fl inf json o
  LeavesStored (held_up o) = IsRestored fl inf json o

  joined-LeavesStored :
      (returns : Bool) (o : Outcome (Pipeline fl inf (sqlite_store json)))
      → IsRestored fl inf json o
      → LeavesStored (joined fl inf (sqlite_store json) returns o)
  unfolding joined
  joined-LeavesStored true o h = h
  joined-LeavesStored false o h = h

  abbrev IsReady : Result (Pipeline fl inf (sqlite_store json)) → Type 0
  IsReady (err e) = Unit
  IsReady (ok p) = IsSynced json p.registry p.stored

  start_up-IsReady :
      (host : Host fl inf (sqlite_store json)) (args : RunArgs) (db : Option Bytes)
      → ((path : Bytes) (tables : Tables)
          → host.open_store path ≡ ok tables
          → AreStored (load_devices json tables))
      → IsReady (start_up fl inf (sqlite_store json) host args db)
  unfolding start_up seed_registry
  start_up-IsReady host args db good =
      let path = (resolve_config host.default_db_path args db).db_path in
      elim (Result-cases (host.open_store path)) [
        | inr (e, opened) ↦ rw opened tt
        | inl (tables, opened) ↦
            elim (Result-cases (installed fl inf (sqlite_store json) host args.metrics)) [
              | inr (e, failed) ↦ rw (opened, failed) tt
              | inl (done, ready) ↦
                  rw (opened, ready)
                    (load_all-IsSynced fl inf json tables (good path tables opened))
            ]
      ]

  ended-LeavesStored :
      (args : RunArgs) (inputs : List Input) (ui : Result {0} Unit) (returns : Bool)
      (p : Result (Pipeline fl inf (sqlite_store json)))
      → IsJson json
      → IsReady p
      → HasSources inputs
      → LeavesStored (ended fl inf (sqlite_store json) args inputs ui returns p)
  unfolding ended
  ended-LeavesStored args inputs ui returns (err e) j s h = tt
  ended-LeavesStored args inputs ui returns (ok p) j s h = elim (Bool-cases args.headless) [
    | inl headless ↦ rw headless (
        joined-LeavesStored returns (capture_loop fl inf (sqlite_store json) p 0 inputs)
          (capture_loop-IsRestored fl inf json p 0 inputs j s h))
    | inr shown ↦ rw shown (with_ui ui)
  ]
    where
      with_ui :
          (r : Result {0} Unit)
          → LeavesStored (after_ui fl inf (sqlite_store json) p inputs r returns)
      with_ui (err e) = tt
      with_ui (ok x) =
          joined-LeavesStored returns
            (capture_loop fl inf (sqlite_store json) p 0
              (inputs ++ shutdown_changed (some true) ∷ []))
            (capture_loop-IsRestored fl inf json p 0 (inputs ++ shutdown_changed (some true) ∷ []) j
              s (HasSources-append inputs h))

  -- Where the database that is opened holds valid devices, none twice, `serde_json` reads back what it
  -- writes and every discovery event has a source of six bytes: when `run` ends after the capture loop
  -- has returned, the database again holds valid devices, none twice, and the next run starts with
  -- exactly the devices that this one had, whatever came in between.
  pub run-LeavesStored :
      (host : Host fl inf (sqlite_store json)) (args : RunArgs) (db : Option Bytes)
      (inputs : List Input) (ui : Result {0} Unit) (returns : Bool)
      → IsJson json
      → ((path : Bytes) (tables : Tables)
          → host.open_store path ≡ ok tables
          → AreStored (load_devices json tables))
      → HasSources inputs
      → LeavesStored (run fl inf (sqlite_store json) host args db inputs ui returns)
  unfolding run
  run-LeavesStored host args db inputs ui returns j good sources =
      ended-LeavesStored args inputs ui returns (start_up fl inf (sqlite_store json) host args db) j
        (start_up-IsReady host args db good) sources
