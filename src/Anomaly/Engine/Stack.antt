-- ===== src/Anomaly/Engine/Stack.antt =====
-- What an engine of the shape of the default stack reports.
use lanscope.Base.Text.{Bytes, codes}
use mathlib.Core.List.{append-nil}
use lanscope.Base.{refl, Option, some, ◌++◌, map, ◌≡◌, [], ◌∷◌, ℕ}
use lanscope.Base.Float.{Floats}
use lanscope.Common.Flow.{FlowKey, FlowStats}
use lanscope.Registry.{Device, added, updated}
use lanscope.Alert.{Severity, info}
use lanscope.Anomaly.NewDevice
use lanscope.Anomaly.PortScan
use lanscope.Anomaly.PortScan.{PortScanDetector}
use lanscope.Anomaly.VolumeSpike
use lanscope.Anomaly.VolumeSpike.{VolumeSpikeDetector}
use lanscope.Anomaly.Onnx.{Inference}
use lanscope.Anomaly.Engine.{
  Engine, new_device_detector, port_scan_detector, volume_spike_detector, on_device, on_flow,
}

module _ (fl : Floats) (inf : Inference fl) where
  -- The three heuristics, in the order of the default stack, with any state.
  abbrev pub heuristics : PortScanDetector → VolumeSpikeDetector fl → Engine fl inf
  heuristics scan spike =
      new_device_detector ∷ port_scan_detector scan ∷ volume_spike_detector spike ∷ []

  module _ (scan : PortScanDetector) (spike : VolumeSpikeDetector fl) where
    -- A device that was known raises no alert, and a new one exactly one: an informational alert of
    -- the kind `new_device` that carries the time and the MAC.
    pub heuristics-on_device :
        (device : Device) (now : ℕ)
        → (on_device fl inf (heuristics scan spike) device updated now ≡ [])
          × (map {B = ℕ × Option Bytes × Severity × Bytes}
                (λ a. (a.ts, a.mac, a.severity, a.kind))
                (on_device fl inf (heuristics scan spike) device added now)
              ≡ (now, some device.mac, info, codes "new_device") ∷ [])
    unfolding on_device NewDevice.on_device
    heuristics-on_device device now = (refl, refl)

    -- A flow goes through the port scan and the volume detectors, each with its own state, and
    -- their alerts come in that order.
    pub heuristics-on_flow :
        (key : FlowKey) (stats : FlowStats) (now : ℕ)
        → on_flow fl inf (heuristics scan spike) key stats now ≡ (
          heuristics
              (PortScan.on_flow scan key now).0
              (VolumeSpike.on_flow fl spike key stats now).0,
          (PortScan.on_flow scan key now).1 ++ (VolumeSpike.on_flow fl spike key stats now).1,
        )
    unfolding on_flow
    heuristics-on_flow key stats now = rw append-nil
