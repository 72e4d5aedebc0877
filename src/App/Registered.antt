-- ===== src/App/Registered.antt =====
-- What an event does to the registry.
use lanscope.App.Emitted.{emit_alerts_exact}
use lanscope.Anomaly.Engine.{on_device, on_flow}
use lanscope.Common.{zero_mac}
use mathlib.Core.Path.{subst}
use lanscope.Decode.{decode_event}
use lanscope.Common.Flow.{FlowStats, FlowKey}
use lanscope.Decode.Defs.{Observation}
use lanscope.Base.{
  nat_Eq, list_Eq, inr, inl, sym, refl, none, ◌==◌, some, [], ◌≡◌, ◌∷◌, Bool-cases, ℕ, Option, List,
}
use lanscope.Registry.Invariant.{typed, observed, flowed, here, next, Reach}
use lanscope.Registry.{observe, get_device, Change, Device, DeviceRegistry}
use lanscope.App.{
  persist_new, process_flow, flows, discovery, CaptureEvent, observe_classified, handle_flow,
  Pipeline, report_device, handle_observations, handle_observation, handle_flows, handle_event,
}
use lanscope.Storage.{Store}
use lanscope.Anomaly.Onnx.{Inference}
use lanscope.Base.Float.{Floats}

-- One run of steps after another.
pub trans_Reach : {a b c : DeviceRegistry} → Reach a b → Reach b c → Reach a c
trans_Reach r here = r
trans_Reach r (next s step) = next (trans_Reach r s) step

module _ (fl : Floats) (inf : Inference fl) (st : Store) where
  pub report_device-registry :
      (p : Pipeline fl inf st) (dev : Option Device) (change : Change) (now : ℕ)
      → (report_device fl inf st p dev change now).registry ≡ p.registry
  unfolding report_device
  report_device-registry p none change now = refl
  report_device-registry p (some dev) change now =
      (emit_alerts_exact fl inf st (record p { stored = persist_new fl inf st p.stored change dev })
        (on_device fl inf p.anomaly dev change now)).3

  pub observe_classified-Reach :
      (reg : DeviceRegistry) (obs : Observation) (now : ℕ)
      → Reach reg (observe_classified fl inf st reg obs now).0
  unfolding observe_classified
  observe_classified-Reach reg obs now =
      next (next here (observed obs now)) (typed (observe reg obs now).1 _)

  pub handle_observation-Reach :
      (p : Pipeline fl inf st) (obs : Observation) (now : ℕ)
      → Reach p.registry (handle_observation fl inf st p obs now).0.registry
  unfolding handle_observation
  handle_observation-Reach p obs now = elim (Bool-cases (obs.mac == zero_mac)) [
    | inl zero_address ↦ rw zero_address here
    | inr other ↦
        let (registry, mac, change) = observe_classified fl inf st p.registry obs now in
        rw
          (
            other,
            report_device-registry (record p { registry = registry }) (get_device registry mac)
                change now,
          )
          (observe_classified-Reach p.registry obs now)
  ]

  handle_observations-Reach :
      (p : Pipeline fl inf st) (observations : List Observation) (now : ℕ)
      → Reach p.registry (handle_observations fl inf st p observations now).0.registry
  unfolding handle_observations
  handle_observations-Reach p [] now = here
  handle_observations-Reach p (obs ∷ rest) now =
      trans_Reach (handle_observation-Reach p obs now)
        (handle_observations-Reach (handle_observation fl inf st p obs now).0 rest now)

  handle_flows-Reach :
      (p : Pipeline fl inf st) (snapshot : List (FlowKey × FlowStats)) (now : ℕ)
      → Reach p.registry (handle_flows fl inf st p snapshot now).registry
  unfolding handle_flows handle_flow process_flow
  handle_flows-Reach p [] now = here
  handle_flows-Reach p ((key, stats) ∷ rest) now =
      trans_Reach
        (subst (λ r. Reach p.registry r)
          (sym
            (emit_alerts_exact fl inf st (process_flow fl inf st p key stats now)
              (on_flow fl inf p.anomaly key stats now).1).3)
          (next here (flowed key stats now)))
        (handle_flows-Reach (handle_flow fl inf st p key stats now) rest now)

  -- Whatever the event, the registry that is left is reached from the one before by observations,
  -- inferred types and flow snapshots only.
  pub handle_event-Reach :
      (p : Pipeline fl inf st) (ev : CaptureEvent) (now : ℕ)
      → Reach p.registry (handle_event fl inf st p ev now).0.registry
  unfolding handle_event
  handle_event-Reach p (discovery e) now = handle_observations-Reach p (decode_event e) now
  handle_event-Reach p (flows snapshot) now = handle_flows-Reach p snapshot now
