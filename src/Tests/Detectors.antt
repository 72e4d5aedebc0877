-- ===== src/Tests/Detectors.antt =====
-- The anomaly detectors.
use lanscope.Anomaly.PortScan.Window
use lanscope.Anomaly.VolumeSpike.Reference
use lanscope.Anomaly.PortScan.Reference.{alerts_by-count_full, windows, count_full}
use lanscope.Base.Distinct.{Distinct}
use lanscope.Common.Flow.{flow_key, FlowKey}
use lanscope.Anomaly.PortScan.Window.{scan_exact, ports_after, alerts_by}
use lanscope.Tests.Samples.{some_stats, one_flow, whole_numbers}
use lanscope.Base.Dict.{get}
use lanscope.Base.{All, refl, nat_Eq, arith, ◌≡◌, [], ◌∷◌, ℕ}
use lanscope.Anomaly.VolumeSpike.{default_volume_spike, VolumeSpikeDetector}
use lanscope.Anomaly.PortScan.{PortScanDetector}
use lanscope.Anomaly.VolumeSpike.Reference.{alerts_by-spikes, spikes, averaged, bytes_of}

abbrev scanning : ℕ → FlowKey
scanning port = flow_key 0xc0a80102 0xc0a80101 40000 port 6

abbrev low_threshold : PortScanDetector
low_threshold = record { seen = []; window_secs = 10; threshold = 2 }

-- Two windows: the second begins with the flow that comes later than ten seconds.
abbrev two_windows : Window.Flows
two_windows = (scanning 443, 101) ∷ (scanning 8080, 120) ∷ (scanning 22, 121) ∷ []

alerts_by-count_full_example :
    (alerts_by 0xc0a80102 low_threshold ((scanning 80, 100) ∷ two_windows)
      ≡ count_full 2 (windows 0xc0a80102 10 100 [] ((scanning 80, 100) ∷ two_windows)))
    × All Distinct (windows 0xc0a80102 10 100 [] ((scanning 80, 100) ∷ two_windows))
unfolding get
alerts_by-count_full_example =
    alerts_by-count_full low_threshold (scanning 80) 100 two_windows refl (omega arith)

abbrev averaging : VolumeSpikeDetector whole_numbers
averaging = record (default_volume_spike whole_numbers) { ewma = (0xc0a80102, 100000) ∷ [] }

-- The traffic of another source lies between.
abbrev three_flows : Reference.Flows
three_flows =
    (one_flow, some_stats, 100) ∷ (scanning 80, some_stats, 101) ∷ (one_flow, some_stats, 102) ∷ []

alerts_by-spikes_example :
    (Reference.alerts_by whole_numbers one_flow.src_ip averaging three_flows
      ≡ spikes whole_numbers averaging.alpha averaging.spike_factor averaging.floor_bytes
          (get one_flow.src_ip averaging.ewma)
          (bytes_of whole_numbers one_flow.src_ip three_flows))
    × (get one_flow.src_ip (Reference.after whole_numbers averaging three_flows).ewma
        ≡ averaged whole_numbers averaging.alpha
            (get one_flow.src_ip averaging.ewma)
            (bytes_of whole_numbers one_flow.src_ip three_flows))
alerts_by-spikes_example = alerts_by-spikes whole_numbers averaging three_flows one_flow.src_ip
