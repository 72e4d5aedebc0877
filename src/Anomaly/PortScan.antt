-- ===== src/Anomaly/PortScan.antt =====
-- `PortScanDetector` of lanscope/src/anomaly/heuristics.rs
pub mod Window
pub mod Reference
use lanscope.Base.Decimal.{to_string}
use lanscope.Netfmt.{fmt_ipv4}
use lanscope.Base.Text.{codes, Bytes}
use lanscope.Base.{
  Option, true, not, ◌∷◌, ◌&&◌, ◌+◌, ◌++◌, nat_Eq, length, some, ltb, leb, contains, Bool, none,
  if◌then◌else◌, false, List, ℕ, [],
}
use lanscope.Base.Dict.{Dict, get, insert}
use lanscope.Common.Flow.{FlowKey, FlowStats}
use lanscope.Alert.{Alert, new_alert, warning}

-- The ports are a `HashSet`: a list in which none stands twice.
pub record ScanState : Type 0 where
  pub window_start : ℕ
  pub ports : List ℕ
  pub alerted : Bool

pub record PortScanDetector : Type 0 where
  pub seen : Dict ℕ ScanState
  pub window_secs : ℕ
  pub threshold : ℕ

abbrev pub default_port_scan : PortScanDetector
default_port_scan = record { seen = []; window_secs = 10; threshold = 20 }

abbrev pub fresh : ℕ → ScanState
fresh now = record { window_start = now; ports = []; alerted = false }

-- `now - state.window_start > window`, over signed integers.
unfoldable pub roll : ℕ → ℕ → ScanState → ScanState
roll window now state = if ltb (state.window_start + window) now then fresh now else state

-- `HashSet::insert`
unfoldable pub insert_port : ℕ → List ℕ → List ℕ
insert_port port ports = if contains ports port then ports else ports ++ port ∷ []

scan_message : ℕ → ℕ → ℕ → Bytes
scan_message src_ip ports window =
    codes "Possible port scan from "
    ++ (fmt_ipv4 src_ip
        ++ (codes ": "
            ++ (to_string ports
                ++ (codes " distinct ports in " ++ (to_string window ++ codes "s")))))

-- The test on the number of ports, and the alert.
unfoldable pub decide : PortScanDetector → ℕ → ℕ → ScanState → ScanState × List Alert
unfolding scan_message
decide det src_ip now state =
    if leb det.threshold (length state.ports) && not state.alerted
    then (
      record state { alerted = true },
      new_alert now none warning (codes "port_scan")
            (scan_message src_ip (length state.ports) det.window_secs)
          ∷ [],
    )
    else (state, [])

-- `entry(key.src_ip).or_insert_with(…)`
unfoldable pub entry_or : Option ScanState → ℕ → ScanState
entry_or none now = fresh now
entry_or (some state) now = state

-- What `on_flow` does to the state of one source.
unfoldable pub scan_step : PortScanDetector → FlowKey → ℕ → ScanState → ScanState × List Alert
unfolding roll insert_port decide
scan_step det key now state =
    let rolled = roll det.window_secs now state in
    decide det key.src_ip now (record rolled { ports = insert_port key.dst_port rolled.ports })

unfoldable pub on_flow : PortScanDetector → FlowKey → ℕ → PortScanDetector × List Alert
unfolding scan_step entry_or
on_flow det key now =
    let (state, alerts) = scan_step det key now (entry_or (get key.src_ip det.seen) now) in
    (record det { seen = insert key.src_ip state det.seen }, alerts)
