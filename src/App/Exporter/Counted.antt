-- ===== src/App/Exporter/Counted.antt =====
-- What the metrics of a run of the loop say of the traffic.
use lanscope.Base.{
  ℕ, ◌+◌, ◌%◌, ◌^◌, ◌≡◌, ◌++◌, ◌∙◌, ap, refl, arith, Option, none, some, Bool-cases, inl, inr, true,
  false, List, [], ◌∷◌, map, ◌==◌, list_Eq, nat_Eq,
}
use lanscope.Base.Float.{Floats}
use lanscope.Common.Flow.{FlowKey, FlowStats}
use lanscope.Common.{zero_mac}
use lanscope.Decode.{decode_event}
use lanscope.Decode.Defs.{Observation}
use lanscope.Registry.{Device, Change, get_device}
use lanscope.Alert.{Alert}
use lanscope.Anomaly.Onnx.{Inference}
use lanscope.Anomaly.Engine.{on_device, on_flow}
use lanscope.Storage.{Store}
use lanscope.App.{
  Metric, device_count, flow_recorded, alert_recorded, discovery, flows, Pipeline, emit_alerts,
  report_device, persist_new, observe_classified, handle_observation, handle_observations,
  process_flow, handle_flow, handle_flows, handle_event,
}
use lanscope.App.Emitted.{emit_alerts_exact}
use lanscope.App.Loop.{
  Input, received, closed, ticked, shutdown_changed, Outcome, stopped, waiting, tick, finish,
  capture_loop,
}

-- What the flows in a trace of metrics add to a counter; `pick` takes their packets or their bytes.
abbrev pub recorded : (ℕ → ℕ → ℕ) → List Metric → ℕ
recorded pick [] = 0
recorded pick (device_count n ∷ metrics) = recorded pick metrics
recorded pick (flow_recorded packets bytes ∷ metrics) = pick packets bytes + recorded pick metrics
recorded pick (alert_recorded severity ∷ metrics) = recorded pick metrics

recorded-append :
    (pick : ℕ → ℕ → ℕ) (ms ns : List Metric)
    → recorded pick (ms ++ ns) ≡ recorded pick ms + recorded pick ns
recorded-append pick [] ns = omega arith
recorded-append pick (device_count n ∷ ms) ns = recorded-append pick ms ns
recorded-append pick (alert_recorded severity ∷ ms) ns = recorded-append pick ms ns
recorded-append pick (flow_recorded packets bytes ∷ ms) ns =
    omega (arith, recorded-append pick ms ns)

recorded-alerts :
    (pick : ℕ → ℕ → ℕ) (alerts : List Alert)
    → recorded pick (map (λ a. alert_recorded a.severity) alerts) ≡ 0
recorded-alerts pick [] = refl
recorded-alerts pick (a ∷ alerts) = recorded-alerts pick alerts

abbrev pub in_snapshot : (ℕ → ℕ → ℕ) → List (FlowKey × FlowStats) → ℕ
in_snapshot pick [] = 0
in_snapshot pick ((key, stats) ∷ rest) = pick stats.packets stats.bytes + in_snapshot pick rest

-- The traffic of the snapshots that are received before the loop has returned.
abbrev pub in_inputs : (ℕ → ℕ → ℕ) → List Input → ℕ
in_inputs pick [] = 0
in_inputs pick (received (discovery e) now ∷ rest) = in_inputs pick rest
in_inputs pick (received (flows snapshot) now ∷ rest) =
    in_snapshot pick snapshot + in_inputs pick rest
in_inputs pick (closed ∷ rest) = 0
in_inputs pick (ticked ∷ rest) = in_inputs pick rest
in_inputs pick (shutdown_changed none ∷ rest) = 0
in_inputs pick (shutdown_changed (some true) ∷ rest) = 0
in_inputs pick (shutdown_changed (some false) ∷ rest) = in_inputs pick rest

module _ (fl : Floats) (inf : Inference fl) (st : Store) (pick : ℕ → ℕ → ℕ) where
  abbrev pub counts : Pipeline fl inf st → ℕ
  counts p = recorded pick p.metrics

  emit_alerts-counts :
      (p : Pipeline fl inf st) (alerts : List Alert)
      → counts (emit_alerts fl inf st p alerts) ≡ counts p
  emit_alerts-counts p alerts =
      let (stored, metrics, dashboard, registry, anomaly) = emit_alerts_exact fl inf st p alerts in
      ap (recorded pick) metrics
      ∙ recorded-append pick p.metrics (map (λ a. alert_recorded a.severity) alerts)
      ∙ omega (arith, recorded-alerts pick alerts)

  report_device-counts :
      (p : Pipeline fl inf st) (dev : Option Device) (change : Change) (now : ℕ)
      → counts (report_device fl inf st p dev change now) ≡ counts p
  unfolding report_device
  report_device-counts p none change now = refl
  report_device-counts p (some d) change now =
      emit_alerts-counts (record p { stored = persist_new fl inf st p.stored change d })
        (on_device fl inf p.anomaly d change now)

  handle_observation-counts :
      (p : Pipeline fl inf st) (obs : Observation) (now : ℕ)
      → counts (handle_observation fl inf st p obs now).0 ≡ counts p
  unfolding handle_observation
  handle_observation-counts p obs now = elim (Bool-cases (obs.mac == zero_mac)) [
    | inl zero_address ↦ rw zero_address refl
    | inr other ↦
        let e = observe_classified fl inf st p.registry obs now in
        rw other (report_device-counts (record p { registry = e.0 }) (get_device e.0 e.1) e.2 now)
  ]

  handle_observations-counts :
      (p : Pipeline fl inf st) (observations : List Observation) (now : ℕ)
      → counts (handle_observations fl inf st p observations now).0 ≡ counts p
  unfolding handle_observations
  handle_observations-counts p [] now = refl
  handle_observations-counts p (obs ∷ rest) now =
      handle_observations-counts (handle_observation fl inf st p obs now).0 rest now
      ∙ handle_observation-counts p obs now

  handle_flow-counts :
      (p : Pipeline fl inf st) (key : FlowKey) (stats : FlowStats) (now : ℕ)
      → counts (handle_flow fl inf st p key stats now) ≡ counts p + pick stats.packets stats.bytes
  unfolding handle_flow process_flow
  handle_flow-counts p key stats now =
      emit_alerts-counts (process_flow fl inf st p key stats now)
        (on_flow fl inf p.anomaly key stats now).1
      ∙ recorded-append pick p.metrics (flow_recorded stats.packets stats.bytes ∷ [])
      ∙ omega arith

  handle_flows-counts :
      (p : Pipeline fl inf st) (snapshot : List (FlowKey × FlowStats)) (now : ℕ)
      → counts (handle_flows fl inf st p snapshot now) ≡ counts p + in_snapshot pick snapshot
  unfolding handle_flows
  handle_flows-counts p [] now = omega arith
  handle_flows-counts p ((key, stats) ∷ rest) now = omega (
    arith,
    handle_flows-counts (handle_flow fl inf st p key stats now) rest now,
    handle_flow-counts p key stats now,
  )

  abbrev pub final : Outcome (Pipeline fl inf st) → Pipeline fl inf st
  final (stopped p n) = p
  final (waiting p n) = p

  tick-counts : (p : Pipeline fl inf st) → counts (tick fl inf st p) ≡ counts p
  unfolding tick
  tick-counts p = recorded-append pick p.metrics _ ∙ omega arith

  pub capture_loop-counts :
      (p : Pipeline fl inf st) (n : ℕ) (inputs : List Input)
      → counts (final (capture_loop fl inf st p n inputs)) ≡ counts p + in_inputs pick inputs
  unfolding capture_loop handle_event finish
  capture_loop-counts p n [] = omega arith
  capture_loop-counts p n (received (discovery e) now ∷ rest) = omega (
    arith,
    capture_loop-counts (handle_observations fl inf st p (decode_event e) now).0
        ((n + (handle_observations fl inf st p (decode_event e) now).1) % 2 ^ 64) rest,
    handle_observations-counts p (decode_event e) now,
  )
  capture_loop-counts p n (received (flows snapshot) now ∷ rest) = omega (
    arith,
    capture_loop-counts (handle_flows fl inf st p snapshot now) ((n + 0) % 2 ^ 64) rest,
    handle_flows-counts p snapshot now,
  )
  capture_loop-counts p n (closed ∷ rest) = omega arith
  capture_loop-counts p n (ticked ∷ rest) =
      capture_loop-counts (tick fl inf st p) n rest ∙ omega (arith, tick-counts p)
  capture_loop-counts p n (shutdown_changed none ∷ rest) = omega arith
  capture_loop-counts p n (shutdown_changed (some true) ∷ rest) = omega arith
  capture_loop-counts p n (shutdown_changed (some false) ∷ rest) = capture_loop-counts p n rest
