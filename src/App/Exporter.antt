-- ===== src/App/Exporter.antt =====
-- lanscope/src/exporter.rs: what the metrics of the loop make the recorder of the library `metrics`
-- count. The recorder is a parameter.
pub mod Counted
pub mod Exported
use lanscope.Base.{ℕ, Option, none, some, List, [], ◌∷◌}
use lanscope.Base.Text.{codes, Bytes}
use lanscope.Alert.{as_str}
use lanscope.App.{Metric, device_count, flow_recorded, alert_recorded}

-- The name of a counter, with the names and the values of its labels.
pub record Key : Type 0 where
  pub name : Bytes
  pub labels : List Bytes

pub record Recorder : Type 1 where
  pub State : Type 0
  pub set_gauge : State → Bytes → ℕ → State
  pub increment : State → Key → ℕ → State
  pub counter : State → Key → ℕ

abbrev pub flow_packets : Key
flow_packets = record { name = codes "lanscope_flow_packets_total"; labels = [] }

abbrev pub flow_bytes : Key
flow_bytes = record { name = codes "lanscope_flow_bytes_total"; labels = [] }

abbrev pub alerts_by : Bytes → Key
alerts_by severity = record {
  name = codes "lanscope_alerts_total";
  labels = codes "severity" ∷ severity ∷ [];
}

module _ (rec : Recorder) where
  open rec use {State, set_gauge, increment}

  -- `set_device_count`, `record_flow` and `record_alert`
  unfoldable pub perform : State → Metric → State
  perform s (device_count n) = set_gauge s (codes "lanscope_devices_total") n
  perform s (flow_recorded packets bytes) =
      increment (increment s flow_packets packets) flow_bytes bytes
  perform s (alert_recorded severity) = increment s (alerts_by (as_str severity)) 1

  abbrev pub perform_all : State → List Metric → State
  perform_all s [] = s
  perform_all s (m ∷ metrics) = perform_all (perform s m) metrics
