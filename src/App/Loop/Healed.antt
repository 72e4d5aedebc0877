-- ===== src/App/Loop/Healed.antt =====
-- The loop on a database whose statements may fail.
use lanscope.Storage.Sqlite.Failing.{
  IsWorking, execute_cases, execute_works, failing_store, execute, Connection,
}
use lanscope.App.Kept.{flush_all-Holds, handle_event-Holds, Invariant}
use lanscope.App.Synced.Handled.{record_alert-devices}
use mathlib.Core.Path.{subst}
use lanscope.Common.{MacAddr}
use lanscope.App.Synced.{upsert_device-IsSynced, devices-IsSynced, Grows-IsSynced, IsSynced}
use lanscope.Registry.{Device, DeviceRegistry}
use lanscope.Base.Dict.{Dict}
use lanscope.Storage.Sqlite.Upsert.{IsJson}
use lanscope.App.Loop.Restored.{flushed-IsRestorable, HasSources, IsRestorable}
use lanscope.App.{handle_event, upsert_all, flush_all, Pipeline}
use lanscope.Storage.Sqlite.{upsert_device, sqlite_store, record_alert, Json}
use lanscope.Anomaly.Onnx.{Inference}
use lanscope.Base.Float.{Floats}
use lanscope.App.Loop.{
  Input, received, closed, ticked, shutdown_changed, Outcome, stopped, waiting, capture_loop,
  finish, tick,
}
use lanscope.Base.{
  false, none, some, ◌^◌, ◌%◌, ap, ◌∙◌, ◌+◌, ◌++◌, sym, refl, inl, List, ◌∷◌, ℕ, inr, [], true, ◌≡◌,
  ◌⊎◌,
}

module _ (fl : Floats) (inf : Inference fl) (json : Json) where
  -- A failing statement leaves what is stored in step with what is known.
  abbrev in_step_still : IsJson json → Invariant (failing_store json)
  in_step_still j = record {
    Holds = λ reg conn. IsSynced json reg conn.tables;
    valid = λ s. s.valid;
    keys = λ s. s.keys;
    grown = Grows-IsSynced json;
    recorded = λ reg conn a s. elim (execute_cases conn (λ db. record_alert db a)) [
      | inl same ↦ subst (IsSynced json reg) (sym same) s
      | inr stored ↦
          subst (IsSynced json reg) (sym stored)
            (devices-IsSynced json (record_alert-devices conn.tables a) s)
    ];
    upserted = λ reg conn n d m known s. elim (execute_cases conn (λ db. upsert_device json db d)) [
      | inl same ↦ subst (IsSynced json reg) (sym same) s
      | inr stored ↦
          subst (IsSynced json reg) (sym stored)
            (upsert_device-IsSynced json reg conn.tables n d j m known s)
    ];
  }

  upsert_all_works :
      (conn : Connection) (devices : Dict MacAddr Device)
      → IsWorking conn
      → (upsert_all fl inf (failing_store json) conn devices).tables
        ≡ upsert_all fl inf (sqlite_store json) conn.tables devices
  unfolding upsert_all
  upsert_all_works conn [] w = refl
  upsert_all_works conn ((m, d) ∷ devices) w =
      let (stored, works) = execute_works conn (λ db. upsert_device json db d) w in
      upsert_all_works (execute conn (λ db. upsert_device json db d)).0 devices works
      ∙ ap (λ db. upsert_all fl inf (sqlite_store json) db devices) stored

  flush_all_heals :
      (reg : DeviceRegistry) (conn : Connection)
      → IsJson json
      → IsSynced json reg conn.tables
      → IsWorking conn
      → IsRestorable fl inf json reg (flush_all fl inf (failing_store json) reg conn).tables
  unfolding flush_all
  flush_all_heals reg conn j s w =
      subst (IsRestorable fl inf json reg) (sym (upsert_all_works conn reg.devices w))
        (flushed-IsRestorable fl inf json reg conn.tables j s)

  abbrev pub Failing : Type 0
  Failing = Pipeline fl inf (failing_store json)

  -- The loop waits, and from now on no statement fails.
  abbrev pub IsReady : Outcome Failing → Type 0
  IsReady (stopped q n) = ⊥
  IsReady (waiting q n) = IsWorking q.stored

  -- A restart finds exactly the devices of the registry.
  abbrev pub IsHealed : Outcome Failing → Type 0
  IsHealed (stopped q n) = IsRestorable fl inf json q.registry q.stored.tables
  IsHealed (waiting q n) = IsRestorable fl inf json q.registry q.stored.tables

  -- Where `serde_json` reads back what it writes, the store is in step with the registry at the
  -- start and every discovery event has a source of six bytes: whichever statements have failed
  -- before, if the loop waits and no statement fails from then on, then after a single tick of the
  -- flush timer, or the flush at a closed channel, a restart finds exactly the devices of the registry.
  -- Only devices are meant: an alert that could not be stored is not stored again.
  pub capture_loop-IsHealed :
      (p : Failing) (n : ℕ) (inputs : List Input) (last : Input)
      → IsJson json
      → IsSynced json p.registry p.stored.tables
      → HasSources inputs
      → IsReady (capture_loop fl inf (failing_store json) p n inputs)
      → (last ≡ ticked) ⊎ (last ≡ closed)
      → IsHealed (capture_loop fl inf (failing_store json) p n (inputs ++ last ∷ []))
  unfolding capture_loop tick finish
  capture_loop-IsHealed p n [] last j s h w (inl eq) =
      rw eq (flush_all_heals p.registry p.stored j s w)
  capture_loop-IsHealed p n [] last j s h w (inr eq) =
      rw eq (flush_all_heals p.registry p.stored j s w)
  capture_loop-IsHealed p n (received ev now ∷ rest) last j s h w end =
      capture_loop-IsHealed (handle_event fl inf (failing_store json) p ev now).0
        ((n + (handle_event fl inf (failing_store json) p ev now).1) % 2 ^ 64) rest last j
        (handle_event-Holds fl inf (in_step_still j) p ev now h.0 s) h.1 w end
  capture_loop-IsHealed p n (closed ∷ rest) last j s h w end = absurd w
  capture_loop-IsHealed p n (ticked ∷ rest) last j s h w end =
      capture_loop-IsHealed (tick fl inf (failing_store json) p) n rest last j
        (flush_all-Holds fl inf (in_step_still j) p.registry p.stored s) h w end
  capture_loop-IsHealed p n (shutdown_changed none ∷ rest) last j s h w end = absurd w
  capture_loop-IsHealed p n (shutdown_changed (some true) ∷ rest) last j s h w end = absurd w
  capture_loop-IsHealed p n (shutdown_changed (some false) ∷ rest) last j s h w end =
      capture_loop-IsHealed p n rest last j s h w end
