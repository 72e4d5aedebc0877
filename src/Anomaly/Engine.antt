-- ===== src/Anomaly/Engine.antt =====
-- lanscope/src/anomaly/mod.rs: the `Detector` trait, as a data type with a constructor for each
-- implementation, and the engine.
pub mod Stack
use lanscope.Base.{◌∷◌, ◌++◌, ℕ, [], List}
use lanscope.Base.Float.{Floats}
use lanscope.Common.Flow.{FlowKey, FlowStats}
use lanscope.Registry.{Device, Change}
use lanscope.Alert.{Alert}
use lanscope.Anomaly.NewDevice
use lanscope.Anomaly.PortScan
use lanscope.Anomaly.PortScan.{PortScanDetector, default_port_scan}
use lanscope.Anomaly.VolumeSpike
use lanscope.Anomaly.VolumeSpike.{VolumeSpikeDetector, default_volume_spike}
use lanscope.Anomaly.Onnx
use lanscope.Anomaly.Onnx.{Inference, OnnxDetector}

module _ (fl : Floats) (inf : Inference fl) where
  pub data Detector : Type 0 where
    new_device_detector : Detector
    port_scan_detector : PortScanDetector → Detector
    volume_spike_detector : VolumeSpikeDetector fl → Detector
    onnx_detector : OnnxDetector fl inf → Detector

  -- Only the first implementation has the hook; the others return no alert.
  unfoldable pub detector_on_device : Detector → Device → Change → ℕ → List Alert
  detector_on_device new_device_detector device change now = NewDevice.on_device device change now
  detector_on_device _ device change now = []

  unfoldable pub detector_on_flow : Detector → FlowKey → FlowStats → ℕ → Detector × List Alert
  detector_on_flow new_device_detector key stats now = (new_device_detector, [])
  detector_on_flow (port_scan_detector det) key stats now =
      let (det', alerts) = PortScan.on_flow det key now in (port_scan_detector det', alerts)
  detector_on_flow (volume_spike_detector det) key stats now =
      let (det', alerts) = VolumeSpike.on_flow fl det key stats now in
      (volume_spike_detector det', alerts)
  detector_on_flow (onnx_detector det) key stats now =
      let (det', alerts) = Onnx.on_flow fl inf det key stats now in (onnx_detector det', alerts)

  abbrev pub Engine : Type 0
  Engine = List Detector

  -- `Engine::with`
  abbrev pub with_detector : Engine → Detector → Engine
  with_detector detectors detector = detectors ++ detector ∷ []

  -- `Engine::default_stack`
  abbrev pub default_stack : Engine
  default_stack =
      with_detector
        (with_detector (with_detector [] new_device_detector)
          (port_scan_detector default_port_scan))
        (volume_spike_detector (default_volume_spike fl))

  unfoldable pub on_device : Engine → Device → Change → ℕ → List Alert
  unfolding detector_on_device
  on_device [] device change now = []
  on_device (d ∷ detectors) device change now =
      detector_on_device d device change now ++ on_device detectors device change now

  unfoldable pub on_flow : Engine → FlowKey → FlowStats → ℕ → Engine × List Alert
  unfolding detector_on_flow
  on_flow [] key stats now = ([], [])
  on_flow (d ∷ detectors) key stats now =
      let (d', alerts) = detector_on_flow d key stats now in
      let (detectors', rest) = on_flow detectors key stats now in (d' ∷ detectors', alerts ++ rest)
