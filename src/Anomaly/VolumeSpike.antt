-- ===== src/Anomaly/VolumeSpike.antt =====
-- `VolumeSpikeDetector` of lanscope/src/anomaly/heuristics.rs.
pub mod Reference
use lanscope.Netfmt.{fmt_ipv4}
use lanscope.Base.Text.{codes, Bytes}
use lanscope.Base.{
  refl, arith, ◌∷◌, ◌==◌, ◌++◌, ◌≡◌, none, if◌then◌else◌, ◌&&◌, some, nat_Eq, length, List, ℕ, [],
  Option, Bool,
}
use lanscope.Base.Float.{Floats}
use lanscope.Base.Dict.{get-insert, Dict, get, insert}
use lanscope.Common.Flow.{FlowKey, FlowStats}
use lanscope.Alert.{Alert, new_alert, warning}

module _ (fl : Floats) where
  open fl use {F64, of_int, literal, add, sub, mul, lt, print_rounded}

  pub record VolumeSpikeDetector : Type 0 where
    pub ewma : Dict ℕ F64
    pub alpha : F64
    pub spike_factor : F64
    pub floor_bytes : F64

  abbrev pub default_volume_spike : VolumeSpikeDetector
  default_volume_spike = record {
    ewma = [];
    alpha = literal 3 1;
    spike_factor = literal 5 0;
    floor_bytes = literal 1000000 0;
  }

  -- The first observation seeds the average.
  unfoldable pub new_average : VolumeSpikeDetector → Option F64 → F64 → F64
  new_average det none bytes = bytes
  new_average det (some a) bytes = add (mul det.alpha bytes) (mul (sub (literal 1 0) det.alpha) a)

  spike_message : ℕ → F64 → F64 → Bytes
  spike_message src_ip bytes a =
      codes "Traffic spike from "
      ++ (fmt_ipv4 src_ip
          ++ (codes ": "
              ++ (print_rounded bytes
                  ++ (codes " bytes vs ~" ++ (print_rounded a ++ codes " avg")))))

  -- `bytes > floor && a > 0.0 && bytes > spike_factor * a`
  unfoldable pub is_spike : VolumeSpikeDetector → F64 → F64 → Bool
  is_spike det a bytes =
      lt det.floor_bytes bytes && (lt (literal 0 0) a && lt (mul det.spike_factor a) bytes)

  spike_alerts : VolumeSpikeDetector → ℕ → ℕ → F64 → Option F64 → List Alert
  unfolding spike_message is_spike
  spike_alerts det src_ip now bytes none = []
  spike_alerts det src_ip now bytes (some a) =
      if is_spike det a bytes
      then new_alert now none warning (codes "volume_spike") (spike_message src_ip bytes a) ∷ []
      else []

  unfoldable pub on_flow :
      VolumeSpikeDetector → FlowKey → FlowStats → ℕ → VolumeSpikeDetector × List Alert
  unfolding spike_alerts new_average
  on_flow det key stats now =
      let bytes = of_int stats.bytes in
      let avg = get key.src_ip det.ewma in
      (
        record det { ewma = insert key.src_ip (new_average det avg bytes) det.ewma },
        spike_alerts det key.src_ip now bytes avg,
      )
