-- ===== src/Capture/Ebpf/Loop/Sent.antt =====
-- What the backend in the kernel sends while it runs.
use lanscope.Error.{ok, io, err, Result}
use mathlib.Core.List.{append_assoc, append-nil}
use lanscope.Common.Flow.{FlowStats, FlowKey}
use lanscope.Base.Dict.{Dict}
use lanscope.Base.{
  ◌∙◌, ap, refl, Bool-cases, false, true, some, leb, inr, ◌++◌, if◌then◌else◌, [], ◌≡◌, ◌∷◌, none,
  inl, Option, List,
}
use lanscope.Capture.Ebpf.Loop.{Progress, Wake, readable, ticked, shutdown_changed, backend_loop}
use lanscope.Capture.Ebpf.{Item, Sender, send, drain_events, drain_flows, event_size}
use lanscope.App.{CaptureEvent, discovery, flows}

-- The events of the records that are large enough.
abbrev pub events_of : List Item → List CaptureEvent
events_of [] = []
events_of (item ∷ ring) =
    let rest = events_of ring in
    if leb event_size item.len then discovery item.event ∷ rest else rest

-- The message of a tick: none where the table is missing or empty.
abbrev pub snapshot_of : Option (Dict FlowKey FlowStats) → List CaptureEvent
snapshot_of none = []
snapshot_of (some []) = []
snapshot_of (some (entry ∷ table)) = flows (entry ∷ table) ∷ []

-- The messages up to the first branch that ends the loop.
abbrev pub messages : List Wake → List CaptureEvent
messages [] = []
messages (readable (inl e) ∷ rest) = []
messages (readable (inr ring) ∷ rest) = events_of ring ++ messages rest
messages (ticked table ∷ rest) = snapshot_of table ++ messages rest
messages (shutdown_changed none ∷ rest) = []
messages (shutdown_changed (some true) ∷ rest) = []
messages (shutdown_changed (some false) ∷ rest) = messages rest

-- What the task returns, if it does.
abbrev pub result : List Wake → Option (Result {0} Unit)
result [] = none
result (readable (inl e) ∷ rest) = some (err (io e))
result (readable (inr ring) ∷ rest) = result rest
result (ticked table ∷ rest) = result rest
result (shutdown_changed none ∷ rest) = some (ok tt)
result (shutdown_changed (some true) ∷ rest) = some (ok tt)
result (shutdown_changed (some false) ∷ rest) = result rest

abbrev pub open_sender : List CaptureEvent → Sender
open_sender sent = record { sent = sent; accepts = none }

abbrev progress : List CaptureEvent → Option (Result {0} Unit) → Progress
progress sent returned = record { tx = open_sender sent; returned = returned }

drain_events-open :
    (ring : List Item) (sent : List CaptureEvent)
    → drain_events ring (open_sender sent) ≡ ([], open_sender (sent ++ events_of ring))
unfolding drain_events send
drain_events-open [] sent = rw (append-nil sent) refl
drain_events-open (item ∷ ring) sent = elim (Bool-cases (leb event_size item.len)) [
  | inl large ↦
      rw
        (
          large,
          drain_events-open ring (sent ++ discovery item.event ∷ []),
          append_assoc sent (discovery item.event ∷ []) (events_of ring),
        )
        refl
  | inr small ↦ rw (small, drain_events-open ring sent) refl
]

-- While there is a receiver, what is sent is the event of every record that is large enough and
-- every table that is not empty, in the order in which they come, up to a failure of the ring
-- buffer, a set shutdown flag or a lost sender of it; the task returns there, with the error of the
-- ring buffer or with success, and nowhere else.
pub backend_loop_sends :
    (sent : List CaptureEvent) (wakes : List Wake)
    → backend_loop (open_sender sent) wakes
      ≡ record { tx = open_sender (sent ++ messages wakes); returned = result wakes }
unfolding backend_loop drain_flows send
backend_loop_sends sent [] = rw (append-nil sent) refl
backend_loop_sends sent (readable (inl e) ∷ rest) = rw (append-nil sent) refl
backend_loop_sends sent (readable (inr ring) ∷ rest) =
    ap (λ p. backend_loop p.1 rest) (drain_events-open ring sent)
    ∙ backend_loop_sends (sent ++ events_of ring) rest
    ∙ ap (λ all. progress all (result rest)) (append_assoc sent (events_of ring) (messages rest))
backend_loop_sends sent (ticked none ∷ rest) = backend_loop_sends sent rest
backend_loop_sends sent (ticked (some []) ∷ rest) = backend_loop_sends sent rest
backend_loop_sends sent (ticked (some (entry ∷ table)) ∷ rest) =
    backend_loop_sends (sent ++ flows (entry ∷ table) ∷ []) rest
    ∙ ap (λ all. progress all (result rest))
        (append_assoc sent (flows (entry ∷ table) ∷ []) (messages rest))
backend_loop_sends sent (shutdown_changed none ∷ rest) = rw (append-nil sent) refl
backend_loop_sends sent (shutdown_changed (some true) ∷ rest) = rw (append-nil sent) refl
backend_loop_sends sent (shutdown_changed (some false) ∷ rest) = backend_loop_sends sent rest
