-- ===== src/App/Loop/Simulated.antt =====
-- The loop on two stores and dashboards beside each other.
use lanscope.Anomaly.Engine.{on_device, on_flow}
use lanscope.Registry.{updated, added, observe, get_device, DeviceRegistry, Device, Change}
use lanscope.Decode.Defs.{Observation}
use lanscope.Decode.{decode_event}
use lanscope.Common.Flow.{FlowStats, FlowKey}
use lanscope.Alert.{Alert}
use lanscope.Storage.{Store}
use lanscope.Anomaly.Onnx.{Inference}
use lanscope.Base.Float.{Floats}
use lanscope.App.Loop.{
  ticked, received, closed, shutdown_changed, waiting, stopped, Input, Outcome, tick, finish,
  capture_loop,
}
use lanscope.Base.{
  nat_Eq, list_Eq, inr, inl, Bool-cases, ◌≡◌, ◌==◌, ◌+◌, ◌%◌, ◌^◌, ◌∙◌, ap, sym, ℕ, Option, none,
  some, List, [], ◌∷◌, refl, true, false,
}
use lanscope.Common.{zero_mac, MacAddr}
use lanscope.Base.Dict.{Dict}
use lanscope.Tui.{Dashboard}
use lanscope.App.{
  push_shared, classify_known, upsert_all, flush_all, publish_devices, Pipeline, CaptureEvent,
  discovery, flows, emit_alert, emit_alerts, persist_new, report_device, observe_classified,
  handle_observation, handle_observations, process_flow, handle_flow, handle_flows, handle_event,
}

-- What one store holds as another holds it, and what one dashboard shows as another does, so that
-- every call of one is that call of the other.
pub record Simulation (fl : Floats) (inf : Inference fl) (st to : Store) : Type 0 where
  pub stored_as : st.State → to.State
  pub shown_as : Option Dashboard → Option Dashboard
  pub upserted :
      (s : st.State) (d : Device)
      → stored_as (st.upsert_device s d).0 ≡ (to.upsert_device (stored_as s) d).0
  pub recorded :
      (s : st.State) (a : Alert)
      → stored_as (st.record_alert s a).0 ≡ (to.record_alert (stored_as s) a).0
  pub pushed :
      (shown : Option Dashboard) (a : Alert)
      → shown_as (push_shared fl inf st shown a) ≡ push_shared fl inf to (shown_as shown) a
  pub published :
      (reg : DeviceRegistry) (shown : Option Dashboard)
      → shown_as (publish_devices fl inf st reg shown)
        ≡ publish_devices fl inf to reg (shown_as shown)

module _ {fl : Floats} {inf : Inference fl} {st to : Store} (sim : Simulation fl inf st to) where
  abbrev pub simulated : Pipeline fl inf st → Pipeline fl inf to
  simulated p = record {
    registry = p.registry;
    anomaly = p.anomaly;
    dashboard = sim.shown_as p.dashboard;
    stored = sim.stored_as p.stored;
    metrics = p.metrics;
  }

  abbrev pub simulated_outcome : Outcome (Pipeline fl inf st) → Outcome (Pipeline fl inf to)
  simulated_outcome (stopped q n) = stopped (simulated q) n
  simulated_outcome (waiting q n) = waiting (simulated q) n

  emit_alert-simulated :
      (p : Pipeline fl inf st) (a : Alert)
      → emit_alert fl inf to (simulated p) a ≡ simulated (emit_alert fl inf st p a)
  unfolding emit_alert
  emit_alert-simulated p a = rw (sim.recorded p.stored a, sim.pushed p.dashboard a) refl

  emit_alerts-simulated :
      (p : Pipeline fl inf st) (alerts : List Alert)
      → emit_alerts fl inf to (simulated p) alerts ≡ simulated (emit_alerts fl inf st p alerts)
  unfolding emit_alerts
  emit_alerts-simulated p [] = refl
  emit_alerts-simulated p (a ∷ alerts) =
      ap (λ q. emit_alerts fl inf to q alerts) (emit_alert-simulated p a)
      ∙ emit_alerts-simulated (emit_alert fl inf st p a) alerts

  persist_new-simulated :
      (s : st.State) (change : Change) (d : Device)
      → persist_new fl inf to (sim.stored_as s) change d
        ≡ sim.stored_as (persist_new fl inf st s change d)
  unfolding persist_new
  persist_new-simulated s added d = sym (sim.upserted s d)
  persist_new-simulated s updated d = refl

  report_device-simulated :
      (p : Pipeline fl inf st) (dev : Option Device) (change : Change) (now : ℕ)
      → report_device fl inf to (simulated p) dev change now
        ≡ simulated (report_device fl inf st p dev change now)
  unfolding report_device
  report_device-simulated p none change now = refl
  report_device-simulated p (some d) change now = rw (persist_new-simulated p.stored change d) (
      emit_alerts-simulated (record p { stored = persist_new fl inf st p.stored change d })
        (on_device fl inf p.anomaly d change now))

  classify_known_same :
      (dev : Option Device) → classify_known fl inf to dev ≡ classify_known fl inf st dev
  unfolding classify_known
  classify_known_same none = refl
  classify_known_same (some d) = refl

  observe_classified_same :
      (reg : DeviceRegistry) (obs : Observation) (now : ℕ)
      → observe_classified fl inf to reg obs now ≡ observe_classified fl inf st reg obs now
  unfolding observe_classified
  observe_classified_same reg obs now =
      rw (classify_known_same (get_device (observe reg obs now).0 (observe reg obs now).1)) refl

  handle_observation-simulated :
      (p : Pipeline fl inf st) (obs : Observation) (now : ℕ)
      → handle_observation fl inf to (simulated p) obs now ≡ (
        simulated (handle_observation fl inf st p obs now).0,
        (handle_observation fl inf st p obs now).1,
      )
  unfolding handle_observation
  handle_observation-simulated p obs now = elim (Bool-cases (obs.mac == zero_mac)) [
    | inl zero_address ↦ rw zero_address refl
    | inr other ↦
        let e = observe_classified fl inf st p.registry obs now in
        rw other (
          ap
            (λ r. (
              report_device fl inf to (record (simulated p) { registry = r.0 }) (get_device r.0 r.1)
                  r.2 now,
              1,
            ))
            (observe_classified_same p.registry obs now)
          ∙ ap (λ q. (q, 1))
              (report_device-simulated (record p { registry = e.0 }) (get_device e.0 e.1) e.2 now))
  ]

  handle_observations-simulated :
      (p : Pipeline fl inf st) (observations : List Observation) (now : ℕ)
      → handle_observations fl inf to (simulated p) observations now ≡ (
        simulated (handle_observations fl inf st p observations now).0,
        (handle_observations fl inf st p observations now).1,
      )
  unfolding handle_observations
  handle_observations-simulated p [] now = refl
  handle_observations-simulated p (obs ∷ rest) now =
      ap (λ r. let q = handle_observations fl inf to r.0 rest now in (q.0, r.1 + q.1))
        (handle_observation-simulated p obs now)
      ∙ ap (λ q. (q.0, (handle_observation fl inf st p obs now).1 + q.1))
          (handle_observations-simulated (handle_observation fl inf st p obs now).0 rest now)

  handle_flows-simulated :
      (p : Pipeline fl inf st) (snapshot : List (FlowKey × FlowStats)) (now : ℕ)
      → handle_flows fl inf to (simulated p) snapshot now
        ≡ simulated (handle_flows fl inf st p snapshot now)
  unfolding handle_flows handle_flow process_flow
  handle_flows-simulated p [] now = refl
  handle_flows-simulated p ((key, stats) ∷ rest) now =
      ap (λ q. handle_flows fl inf to q rest now)
        (emit_alerts-simulated (process_flow fl inf st p key stats now)
          (on_flow fl inf p.anomaly key stats now).1)
      ∙ handle_flows-simulated (handle_flow fl inf st p key stats now) rest now

  handle_event-simulated :
      (p : Pipeline fl inf st) (ev : CaptureEvent) (now : ℕ)
      → handle_event fl inf to (simulated p) ev now
        ≡ (simulated (handle_event fl inf st p ev now).0, (handle_event fl inf st p ev now).1)
  unfolding handle_event
  handle_event-simulated p (discovery e) now = handle_observations-simulated p (decode_event e) now
  handle_event-simulated p (flows snapshot) now =
      ap (λ q. (q, 0)) (handle_flows-simulated p snapshot now)

  upsert_all-simulated :
      (s : st.State) (devices : Dict MacAddr Device)
      → upsert_all fl inf to (sim.stored_as s) devices
        ≡ sim.stored_as (upsert_all fl inf st s devices)
  unfolding upsert_all
  upsert_all-simulated s [] = refl
  upsert_all-simulated s ((mac, d) ∷ devices) =
      ap (λ t. upsert_all fl inf to t devices) (sym (sim.upserted s d))
      ∙ upsert_all-simulated (st.upsert_device s d).0 devices

  tick-simulated :
      (p : Pipeline fl inf st) → tick fl inf to (simulated p) ≡ simulated (tick fl inf st p)
  unfolding tick flush_all
  tick-simulated p =
      rw (upsert_all-simulated p.stored p.registry.devices, sim.published p.registry p.dashboard)
        refl

  finish-simulated :
      (p : Pipeline fl inf st) → finish fl inf to (simulated p) ≡ simulated (finish fl inf st p)
  unfolding finish flush_all
  finish-simulated p = rw (upsert_all-simulated p.stored p.registry.devices) refl

  -- On the other store and dashboard the loop does the same: it ends when it does, with the same
  -- registry, detectors, metrics and count, and what is stored and shown is seen as there.
  pub capture_loop-simulated :
      (p : Pipeline fl inf st) (n : ℕ) (inputs : List Input)
      → capture_loop fl inf to (simulated p) n inputs
        ≡ simulated_outcome (capture_loop fl inf st p n inputs)
  unfolding capture_loop
  capture_loop-simulated p n [] = refl
  capture_loop-simulated p n (received ev now ∷ rest) =
      ap (λ r. capture_loop fl inf to r.0 ((n + r.1) % 2 ^ 64) rest)
        (handle_event-simulated p ev now)
      ∙ capture_loop-simulated (handle_event fl inf st p ev now).0
          ((n + (handle_event fl inf st p ev now).1) % 2 ^ 64) rest
  capture_loop-simulated p n (closed ∷ rest) = ap (λ q. stopped q n) (finish-simulated p)
  capture_loop-simulated p n (ticked ∷ rest) =
      ap (λ q. capture_loop fl inf to q n rest) (tick-simulated p)
      ∙ capture_loop-simulated (tick fl inf st p) n rest
  capture_loop-simulated p n (shutdown_changed none ∷ rest) =
      ap (λ q. stopped q n) (finish-simulated p)
  capture_loop-simulated p n (shutdown_changed (some true) ∷ rest) =
      ap (λ q. stopped q n) (finish-simulated p)
  capture_loop-simulated p n (shutdown_changed (some false) ∷ rest) =
      capture_loop-simulated p n rest
