-- ===== src/App/Loop/Crash.antt =====
-- What is stored while the loop runs.
use lanscope.Base.{List, [], ◌∷◌, ◌%◌, ◌^◌, ◌+◌, ℕ, some, none, true, false}
use lanscope.Base.Float.{Floats}
use lanscope.Anomaly.Onnx.{Inference}
use lanscope.Netfmt.{fmt_mac}
use lanscope.Registry.{new_registry, DeviceRegistry, get_device}
use lanscope.Storage.Sqlite.{Json, Tables, sqlite_store, load_devices}
use lanscope.Storage.Sqlite.Upsert.{IsJson, find_device}
use lanscope.App.Synced.{IsSynced, flush_all-IsSynced, flush_all-find}
use lanscope.App.Synced.Handled.{handle_event-IsSynced}
use lanscope.App.Synced.Covered.Events.{handle_event-IsCovered}
use lanscope.App.Synced.Covered.{IsCovered, Has-refl}
use lanscope.App.Seeded.{AreStored, load_all-find}
use lanscope.App.Loop.Restored.{HasSources}
use lanscope.App.{load_all, Pipeline, handle_event, flush_all}
use lanscope.App.Loop.{
  Input, received, closed, ticked, shutdown_changed, Outcome, stopped, waiting, capture_loop,
  finish, tick,
}

module _ (fl : Floats) (inf : Inference fl) (json : Json) where
  flush_all-IsCovered :
      (reg : DeviceRegistry) (db : Tables)
      → IsJson json
      → IsSynced json reg db
      → IsCovered fl inf json reg (flush_all fl inf (sqlite_store json) reg db)
  flush_all-IsCovered reg db j s m h =
      rw (flush_all-find json fl inf reg db m h j s) (Has-refl (get_device reg m))

  pub load_all-IsCovered :
      (db : Tables)
      → AreStored (load_devices json db)
      → IsCovered fl inf json
          (load_all fl inf (sqlite_store json) new_registry (load_devices json db))
          db
  load_all-IsCovered db s m h =
      rw (load_all-find fl inf json db m s h)
        (Has-refl (find_device (fmt_mac m) (load_devices json db)))

  -- Wherever the loop is, it has stored what it knows.
  abbrev pub SurvivesCrash : Outcome (Pipeline fl inf (sqlite_store json)) → Type 0
  SurvivesCrash (stopped q n) = IsCovered fl inf json q.registry q.stored
  SurvivesCrash (waiting q n) = IsCovered fl inf json q.registry q.stored

  -- Where `serde_json` reads back what it writes, the store is in step with the registry at the start
  -- and has all of it, and every discovery event has a source of six bytes: after whatever inputs,
  -- also between two flushes, every device that the registry has is in the store, so that a crash at
  -- that moment loses none.
  pub capture_loop-SurvivesCrash :
      (p : Pipeline fl inf (sqlite_store json)) (n : ℕ) (inputs : List Input)
      → IsJson json
      → IsSynced json p.registry p.stored
      → IsCovered fl inf json p.registry p.stored
      → HasSources inputs
      → SurvivesCrash (capture_loop fl inf (sqlite_store json) p n inputs)
  unfolding capture_loop tick finish
  capture_loop-SurvivesCrash p n [] j s c h = c
  capture_loop-SurvivesCrash p n (received ev now ∷ rest) j s c h =
      capture_loop-SurvivesCrash (handle_event fl inf (sqlite_store json) p ev now).0
        ((n + (handle_event fl inf (sqlite_store json) p ev now).1) % 2 ^ 64) rest j
        (handle_event-IsSynced fl inf json p ev now j h.0 s)
        (handle_event-IsCovered fl inf json p ev now j h.0 s.valid c) h.1
  capture_loop-SurvivesCrash p n (closed ∷ rest) j s c h =
      flush_all-IsCovered p.registry p.stored j s
  capture_loop-SurvivesCrash p n (ticked ∷ rest) j s c h =
      capture_loop-SurvivesCrash (tick fl inf (sqlite_store json) p) n rest j
        (flush_all-IsSynced json fl inf p.registry p.stored j s)
        (flush_all-IsCovered p.registry p.stored j s) h
  capture_loop-SurvivesCrash p n (shutdown_changed none ∷ rest) j s c h =
      flush_all-IsCovered p.registry p.stored j s
  capture_loop-SurvivesCrash p n (shutdown_changed (some true) ∷ rest) j s c h =
      flush_all-IsCovered p.registry p.stored j s
  capture_loop-SurvivesCrash p n (shutdown_changed (some false) ∷ rest) j s c h =
      capture_loop-SurvivesCrash p n rest j s c h
