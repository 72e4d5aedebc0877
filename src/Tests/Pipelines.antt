-- ===== src/Tests/Pipelines.antt =====
-- The processing loop, the dashboard and the commands.
use lanscope.Registry.Lookup.{change_of}
use lanscope.App.Emitted.{record_all}
use lanscope.Common.{zero_mac}
use lanscope.Base.Text.{codes}
use lanscope.App.Loop.{ticked, shutdown_changed, capture_loop, received, Input}
use lanscope.App.Discovery.{first_stored, handle_observation_exact, observed_device}
use lanscope.Alert.{Alert}
use lanscope.Tui.{new_dashboard, Dashboard}
use lanscope.Tests.Samples.{
  new_pipeline, host_observation, arp_event, log_store, no_inference, alert_at, whole_numbers,
  laptop_mac,
}
use lanscope.Registry.{new_registry, new_device, get_device, Device}
use lanscope.Base.{ℕ, refl, inr, true, ◌++◌, arith, [], ◌∷◌, some, ◌≢◌, ◌≡◌, List}
use lanscope.App.Loop.Flushed.{
  capture_loop-HasStopped, capture_loop-IsFlushed, IsFlushed, HasStopped,
}
use lanscope.App.{discovery, handle_observation}
use lanscope.Anomaly.Engine.{on_device}

laptop_mac-not_zero : laptop_mac ≢ zero_mac
laptop_mac-not_zero = ground arith

abbrev observed : Device
observed = observed_device whole_numbers no_inference log_store new_registry host_observation 100

handle_observation_exact_example :
    (get_device
        (handle_observation whole_numbers no_inference log_store new_pipeline host_observation
          100).0.registry
        laptop_mac
      ≡ some observed)
    × ((handle_observation whole_numbers no_inference log_store new_pipeline host_observation
          100).0.stored
        ≡ record_all whole_numbers no_inference log_store
            (first_stored whole_numbers no_inference log_store
              ([], [])
              (get_device new_registry laptop_mac)
              observed)
            (on_device whole_numbers no_inference new_pipeline.anomaly observed
              (change_of (get_device new_registry laptop_mac))
              100))
    × ((handle_observation whole_numbers no_inference log_store new_pipeline host_observation 100).1
        ≡ 1)
handle_observation_exact_example =
    handle_observation_exact whole_numbers no_inference log_store new_pipeline host_observation 100
      laptop_mac-not_zero

abbrev two_alerts : List Alert
two_alerts = alert_at 1 ∷ alert_at 2 ∷ []

abbrev some_inputs : List Input
some_inputs = received (discovery arp_event) 100 ∷ ticked ∷ []

capture_loop-IsFlushed_example :
    IsFlushed whole_numbers no_inference log_store new_registry
      (capture_loop whole_numbers no_inference log_store new_pipeline 0 some_inputs)
capture_loop-IsFlushed_example =
    capture_loop-IsFlushed whole_numbers no_inference log_store new_pipeline 0 some_inputs

capture_loop-HasStopped_example :
    HasStopped whole_numbers no_inference log_store (
      capture_loop whole_numbers no_inference log_store new_pipeline 0
        (some_inputs ++ shutdown_changed (some true) ∷ []))
    × (capture_loop whole_numbers no_inference log_store new_pipeline 0
          (some_inputs ++ shutdown_changed (some true) ∷ ticked ∷ [])
        ≡ capture_loop whole_numbers no_inference log_store new_pipeline 0
            (some_inputs ++ shutdown_changed (some true) ∷ []))
capture_loop-HasStopped_example =
    capture_loop-HasStopped whole_numbers no_inference log_store new_pipeline 0 some_inputs
      (shutdown_changed (some true)) (ticked ∷ []) (inr (inr refl))

abbrev dash : Dashboard
dash = new_dashboard (codes "mock") (codes "host")

abbrev two_devices : List Device
two_devices = new_device laptop_mac 100 ∷ new_device laptop_mac 300 ∷ []

abbrev five_rows : ℕ
five_rows = 5
