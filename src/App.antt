-- ===== src/App.antt =====
-- lanscope/src/app.rs: the orchestration, with lanscope/src/exporter.rs as a trace of the metrics
-- it records. The messages that are only logged are left out.
pub mod Exporter
pub mod Config
pub mod Commands
pub mod Loop
pub mod Emitted
pub mod Registered
pub mod Discovery
pub mod Restart
pub mod Flush
pub mod Kept
pub mod Beside
pub mod Synced
pub mod Seeded
pub mod Run
use lanscope.Fingerprint.Rules.{classify}
use mathlib.Core.Option
use lanscope.Anomaly.Engine.{Engine, on_device, on_flow}
use lanscope.Netfmt.{parse_mac}
use lanscope.Base.Text.{Bytes}
use lanscope.Tui.{set_devices, push_alert, Dashboard}
use lanscope.Common.{zero_mac, MacAddr}
use lanscope.Registry.{
  load, get_device, updated, set_device_type, apply_flow, observe, added, Device, DeviceRegistry,
  Change,
}
use lanscope.Decode.Defs.{Observation}
use lanscope.Decode.{decode_event}
use lanscope.Base.Dict.{Dict}
use lanscope.Storage.{Store}
use lanscope.Common.Flow.{FlowStats, FlowKey}
use lanscope.Anomaly.Onnx.{Inference}
use lanscope.Alert.{Alert, Severity}
use lanscope.Common.Event.{Event}
use lanscope.Base.Float.{Floats}
use lanscope.Base.{
  nat_Eq, list_Eq, map, none, ◌==◌, ◌+◌, ◌++◌, some, [], ◌∷◌, if◌then◌else◌, Option, List, ℕ,
}

-- lanscope/src/capture/mod.rs: what a backend sends
pub data CaptureEvent : Type 0 where
  discovery : Event → CaptureEvent
  flows : List (FlowKey × FlowStats) → CaptureEvent

-- The calls of the exporter, in order.
pub data Metric : Type 0 where
  device_count : ℕ → Metric
  flow_recorded : ℕ → ℕ → Metric
  alert_recorded : Severity → Metric

module _ (fl : Floats) (inf : Inference fl) (st : Store) where
  open st use {State, upsert_device, record_alert, load_devices}

  -- What the processing loop owns or shares: `registry`, `anomaly`, the dashboard of the interface
  -- when there is one, the store, and the metrics that were recorded.
  pub record Pipeline : Type 0 where
    pub registry : DeviceRegistry
    pub anomaly : Engine fl inf
    pub dashboard : Option Dashboard
    pub stored : State
    pub metrics : List Metric

  unfoldable pub push_shared : Option Dashboard → Alert → Option Dashboard
  push_shared none alert = none
  push_shared (some dash) alert = some (push_alert dash alert)

  -- The body of the loop over a batch of alerts; an alert that cannot be stored is still shown.
  unfoldable pub emit_alert : Pipeline → Alert → Pipeline
  unfolding push_shared
  emit_alert p alert = record p {
    stored = (record_alert p.stored alert).0;
    metrics = p.metrics ++ alert_recorded alert.severity ∷ [];
    dashboard = push_shared p.dashboard alert;
  }

  unfoldable pub emit_alerts : Pipeline → List Alert → Pipeline
  unfolding emit_alert
  emit_alerts p [] = p
  emit_alerts p (alert ∷ alerts) = emit_alerts (emit_alert p alert) alerts

  -- The store is called for a device that is new.
  unfoldable pub persist_new : State → Change → Device → State
  persist_new s added dev = (upsert_device s dev).0
  persist_new s updated dev = s

  -- `if let Some(dev) = registry.get(&mac) { … }`
  unfoldable pub report_device : Pipeline → Option Device → Change → ℕ → Pipeline
  unfolding emit_alerts persist_new
  report_device p none change now = p
  report_device p (some dev) change now =
      emit_alerts (record p { stored = persist_new p.stored change dev })
        (on_device fl inf p.anomaly dev change now)

  classify_known : Option Device → Option Bytes
  classify_known none = none
  classify_known (some dev) = Option.map (λ c. c.device_type) (classify dev)

  -- `observe`, then the type that the fingerprint engine infers now
  unfoldable pub observe_classified :
      DeviceRegistry → Observation → ℕ → DeviceRegistry × MacAddr × Change
  unfolding classify_known
  observe_classified reg obs now =
      let (registry, mac, change) = observe reg obs now in
      (set_device_type registry mac (classify_known (get_device registry mac)), mac, change)

  -- The body of the loop over the observations of an event; also whether it counts.
  unfoldable pub handle_observation : Pipeline → Observation → ℕ → Pipeline × ℕ
  unfolding report_device observe_classified
  handle_observation p obs now =
      if obs.mac == zero_mac
      then (p, 0)
      else let (registry, mac, change) = observe_classified p.registry obs now in
        (report_device (record p { registry = registry }) (get_device registry mac) change now, 1)

  unfoldable pub handle_observations : Pipeline → List Observation → ℕ → Pipeline × ℕ
  unfolding handle_observation
  handle_observations p [] now = (p, 0)
  handle_observations p (obs ∷ rest) now =
      let (p', n) = handle_observation p obs now in
      let (q, m) = handle_observations p' rest now in (q, n + m)

  -- The body of the loop over the flows of a snapshot, up to the alerts
  unfoldable pub process_flow : Pipeline → FlowKey → FlowStats → ℕ → Pipeline
  process_flow p key stats now = record p {
    metrics = p.metrics ++ flow_recorded stats.packets stats.bytes ∷ [];
    registry = apply_flow p.registry key stats now;
    anomaly = (on_flow fl inf p.anomaly key stats now).0;
  }

  unfoldable pub handle_flow : Pipeline → FlowKey → FlowStats → ℕ → Pipeline
  unfolding process_flow emit_alerts
  handle_flow p key stats now =
      emit_alerts (process_flow p key stats now) (on_flow fl inf p.anomaly key stats now).1

  unfoldable pub handle_flows : Pipeline → List (FlowKey × FlowStats) → ℕ → Pipeline
  unfolding handle_flow
  handle_flows p [] now = p
  handle_flows p ((key, stats) ∷ rest) now = handle_flows (handle_flow p key stats now) rest now

  unfoldable pub handle_event : Pipeline → CaptureEvent → ℕ → Pipeline × ℕ
  unfolding handle_observations handle_flows
  handle_event p (discovery e) now = handle_observations p (decode_event e) now
  handle_event p (flows snapshot) now = (handle_flows p snapshot now, 0)

  -- A device that cannot be stored is passed over.
  unfoldable pub upsert_all : State → Dict MacAddr Device → State
  upsert_all s [] = s
  upsert_all s ((mac, dev) ∷ devices) = upsert_all (upsert_device s dev).0 devices

  unfoldable pub flush_all : DeviceRegistry → State → State
  unfolding upsert_all
  flush_all registry s = upsert_all s registry.devices

  unfoldable pub publish_devices : DeviceRegistry → Option Dashboard → Option Dashboard
  publish_devices registry none = none
  publish_devices registry (some dash) = some (set_devices dash (map (λ e. e.1) registry.devices))

  -- The devices whose MAC can be read are loaded.
  unfoldable pub load_all : DeviceRegistry → List Device → DeviceRegistry
  load_all registry [] = registry
  load_all registry (dev ∷ devices) = elim (parse_mac dev.mac) [
    | none ↦ load_all registry devices
    | some mac ↦ load_all (load registry mac dev) devices
  ]

  -- `None` where the devices cannot be loaded
  unfoldable pub seed_registry : DeviceRegistry → State → Option DeviceRegistry
  unfolding load_all
  seed_registry registry s = Option.map (λ devices. load_all registry devices) (load_devices s)
