-- ===== src/Capture/Portable.antt =====
-- `PortableBackend` of lanscope/src/capture/mock.rs.
pub mod Prefix
use lanscope.Base.{◌∷◌, [], Bool, true, false, if◌then◌else◌, Option, none, some, List}
use lanscope.Capture.{sample_events, sample_flows}
use lanscope.Capture.Ebpf.{Sender, send}
use lanscope.App.{discovery, flows}
use lanscope.Common.Event.{Event}
use lanscope.App.Config.{CaptureMode, Config}

pub record PortableBackend : Type 0 where
  pub mode : CaptureMode

-- `PortableBackend::new`
unfoldable pub new_portable : Config → PortableBackend
new_portable config = record { mode = config.mode }

-- The loop over the frames; also whether all of them were accepted.
unfoldable pub send_events : Sender → List Event → Sender × Bool
unfolding send
send_events tx [] = (tx, true)
send_events tx (ev ∷ events) =
    let (tx', accepted) = send tx (discovery ev) in
    let next = send_events tx' events in if accepted then next else (tx', false)

-- The loop that waits, on the flag as it is at first, then as it is after each change, where `None`
-- says that its sender is gone; whether it has ended.
unfoldable pub idle : Bool → List (Option Bool) → Bool
idle true changes = true
idle false [] = false
idle false (none ∷ changes) = true
idle false (some flag ∷ changes) = idle flag changes

-- The body of `spawn`: what was sent, and whether the task has returned.
unfoldable pub run_portable : Sender → Bool → List (Option Bool) → Sender × Bool
unfolding send_events send idle
run_portable tx flag changes =
    let (tx', accepted) = send_events tx sample_events in
    if accepted then ((send tx' (flows sample_flows)).0, idle flag changes) else (tx', true)
