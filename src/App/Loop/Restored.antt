-- ===== src/App/Loop/Restored.antt =====
-- What a restart after the loop finds.
use lanscope.Base.{◌^◌, ◌%◌, ◌+◌, some, [], ◌≡◌, ℕ, List}
use lanscope.Base.{List, [], ◌∷◌, ◌%◌, ◌^◌, ◌+◌, ℕ, ◌≡◌, some, none, true, false, ◌∙◌, refl}
use lanscope.Common.{IsMac, MacAddr}
use lanscope.Anomaly.Onnx.{Inference}
use lanscope.Base.Float.{Floats}
use lanscope.Registry.{DeviceRegistry, new_registry, get_device}
use lanscope.Netfmt.{fmt_mac}
use lanscope.Storage.Sqlite.{Json, Tables, sqlite_store, load_devices}
use lanscope.Storage.Sqlite.Upsert.{IsJson, find_device}
use lanscope.App.Restart.{load_all-get}
use lanscope.App.Flush.{found_or-none}
use lanscope.App.Seeded.{AreStored, flush_all-AreStored}
use lanscope.App.Synced.{IsSynced, flush_all-IsSynced, flush_all-find}
use lanscope.App.Kept.{HasSource}
use lanscope.App.Synced.Handled.{handle_event-IsSynced}
use lanscope.App.{Pipeline, seed_registry, load_all, handle_event, flush_all}
use lanscope.App.Loop.{
  Input, received, closed, ticked, shutdown_changed, Outcome, stopped, waiting, capture_loop,
  finish, tick,
}

-- The discovery events that are received have MAC addresses of six bytes.
abbrev pub HasSources : List Input → Type 0
HasSources [] = Unit
HasSources (received ev now ∷ rest) = HasSource ev × HasSources rest
HasSources (closed ∷ rest) = HasSources rest
HasSources (ticked ∷ rest) = HasSources rest
HasSources (shutdown_changed res ∷ rest) = HasSources rest

module _ (fl : Floats) (inf : Inference fl) (json : Json) where
  -- A registry that is seeded from the tables has the same devices under the same MAC addresses.
  abbrev pub IsRestorable : DeviceRegistry → Tables → Type 0
  IsRestorable reg db =
      (seeded : DeviceRegistry) × (seed_registry fl inf (sqlite_store json) new_registry db
        ≡ some seeded)
      × ((m : MacAddr) → IsMac m → get_device seeded m ≡ get_device reg m)

  pub flushed-IsRestorable :
      (reg : DeviceRegistry) (db : Tables)
      → IsJson json
      → IsSynced json reg db
      → IsRestorable reg (flush_all fl inf (sqlite_store json) reg db)
  unfolding seed_registry get_device lanscope.Base.Dict.get
  flushed-IsRestorable reg db j s =
      let st = sqlite_store json in
      let after = flush_all fl inf st reg db in
      (
        load_all fl inf st new_registry (load_devices json after),
        refl,
        λ m h.
            load_all-get fl inf st new_registry (load_devices json after) m h
              (flush_all-IsSynced json fl inf reg db j s).rows
            ∙ found_or-none (find_device (fmt_mac m) (load_devices json after))
            ∙ flush_all-find json fl inf reg db m h j s,
      )

  -- The loop has returned and left good tables that restore its registry, or it waits with a store
  -- that is in step.
  abbrev pub IsRestored : Outcome (Pipeline fl inf (sqlite_store json)) → Type 0
  IsRestored (stopped q n) =
      AreStored (load_devices json q.stored) × IsRestorable q.registry q.stored
  IsRestored (waiting q n) = IsSynced json q.registry q.stored

  -- Where `serde_json` reads back what it writes, the store is in step with the registry at the
  -- start and every discovery event has a source of six bytes: whatever the inputs, when the loop
  -- returns a restart finds in the store exactly the devices that the registry then has, each as it
  -- was, with the time at which it was first seen, and each valid; and while the loop waits no row is
  -- of an unknown device.
  pub capture_loop-IsRestored :
      (p : Pipeline fl inf (sqlite_store json)) (n : ℕ) (inputs : List Input)
      → IsJson json
      → IsSynced json p.registry p.stored
      → HasSources inputs
      → IsRestored (capture_loop fl inf (sqlite_store json) p n inputs)
  unfolding capture_loop tick finish
  capture_loop-IsRestored p n [] j s h = s
  capture_loop-IsRestored p n (received ev now ∷ rest) j s h =
      capture_loop-IsRestored (handle_event fl inf (sqlite_store json) p ev now).0
        ((n + (handle_event fl inf (sqlite_store json) p ev now).1) % 2 ^ 64) rest j
        (handle_event-IsSynced fl inf json p ev now j h.0 s) h.1
  capture_loop-IsRestored p n (closed ∷ rest) j s h = (
    flush_all-AreStored fl inf json p.registry p.stored j s,
    flushed-IsRestorable p.registry p.stored j s,
  )
  capture_loop-IsRestored p n (ticked ∷ rest) j s h =
      capture_loop-IsRestored (tick fl inf (sqlite_store json) p) n rest j
        (flush_all-IsSynced json fl inf p.registry p.stored j s) h
  capture_loop-IsRestored p n (shutdown_changed none ∷ rest) j s h = (
    flush_all-AreStored fl inf json p.registry p.stored j s,
    flushed-IsRestorable p.registry p.stored j s,
  )
  capture_loop-IsRestored p n (shutdown_changed (some true) ∷ rest) j s h = (
    flush_all-AreStored fl inf json p.registry p.stored j s,
    flushed-IsRestorable p.registry p.stored j s,
  )
  capture_loop-IsRestored p n (shutdown_changed (some false) ∷ rest) j s h =
      capture_loop-IsRestored p n rest j s h
