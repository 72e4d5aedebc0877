-- ===== src/Tests/Samples.antt =====
-- Concrete values of the parameters and of the data.
use lanscope.Base.Decimal.{to_string}
use lanscope.Tui.{new_dashboard}
use lanscope.Base.Text.{codes}
use lanscope.Anomaly.Engine.{default_stack}
use lanscope.Registry.{Device, new_registry}
use lanscope.Alert.{info, new_alert, Alert}
use lanscope.Storage.{Store}
use lanscope.Decode.Defs.{hostname, Observation}
use lanscope.Common.Flow.{no_stats, flow_key, FlowStats, FlowKey}
use lanscope.Common.Event.{default_event, Event}
use lanscope.Common.{MacAddr, IsMac}
use lanscope.Base.Float.{Floats}
use lanscope.Base.{
  leb, ltb, ◌*◌, ◌-◌, take, ◌+◌, true, ◌^◌, refl, [], ◌∷◌, ◌/◌, some, none, arith, List, ℕ,
}
use lanscope.App.{Pipeline}
use lanscope.Anomaly.Onnx.{Inference}

-- Whole numbers for floats: decimal literals are rounded down.
abbrev pub whole_numbers : Floats
whole_numbers = record {
  F64 = ℕ;
  F32 = ℕ;
  of_int = λ n. n;
  of_int32 = λ n. n;
  narrow = λ x. x;
  literal = λ n k. n / 10 ^ k;
  add = λ a b. a + b;
  sub = λ a b. a - b;
  mul = λ a b. a * b;
  div = λ a b. a / b;
  lt = ltb;
  le = leb;
  literal32 = λ n k. n / 10 ^ k;
  le32 = leb;
  print_rounded = to_string;
  print_two_places = to_string;
}

-- A runtime whose runs fail.
abbrev pub no_inference : Inference whole_numbers
no_inference = record { Session = Unit; run_session = λ s feats. (s, none) }

-- A store that keeps the devices and the alerts it is given.
abbrev pub log_store : Store
log_store = record {
  State = List Device × List Alert;
  load_devices = λ s. some s.0;
  upsert_device = λ s d. ((d ∷ s.0, s.1), true);
  record_alert = λ s a. ((s.0, a ∷ s.1), true);
  recent_alerts = λ s n. some (take n s.1);
}

abbrev pub laptop_mac : MacAddr
laptop_mac = 0x3c ∷ 0x22 ∷ 0xfb ∷ 0x01 ∷ 0x02 ∷ 0x03 ∷ []

pub laptop_mac-IsMac : IsMac laptop_mac
laptop_mac-IsMac = (refl, ground arith)

abbrev pub host_observation : Observation
host_observation = record {
  mac = laptop_mac;
  ip = some 0xc0a80102;
  signal = hostname (codes "laptop");
}

abbrev pub arp_event : Event
arp_event = record default_event { kind = 1; src_ip = 0xc0a80102; src_mac = laptop_mac }

abbrev pub one_flow : FlowKey
one_flow = flow_key 0xc0a80102 0xc0a80101 40000 443 6

abbrev pub some_stats : FlowStats
some_stats = record no_stats { packets = 3; bytes = 1500; min_len = 40; max_len = 1400 }

abbrev pub alert_at : ℕ → Alert
alert_at ts = new_alert ts none info (codes "test") (codes "test")

abbrev pub new_pipeline : Pipeline whole_numbers no_inference log_store
new_pipeline = record {
  registry = new_registry;
  anomaly = default_stack whole_numbers no_inference;
  dashboard = some (new_dashboard (codes "mock") (codes "host"));
  stored = ([], []);
  metrics = [];
}
