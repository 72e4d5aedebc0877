-- ===== src/Capture/Ebpf.antt =====
-- lanscope/src/capture/ebpf.rs: the backend that reads the maps of the kernel. Loading a program,
-- attaching it and the channel are parameters. A map is what the kernel holds at that moment, so
-- the two passes of `drain_flows` may see different ones.
pub mod Attach
pub mod Drain
pub mod Conserved
pub mod Loop
use lanscope.Common.Event.{Event}
use lanscope.Base.Dict.{Dict}
use lanscope.Common.Flow.{flow_key_Eq, FlowStats, FlowKey}
use lanscope.Base.{
  zero, suc, false, true, ◌==◌, ◌++◌, leb, some, none, if◌then◌else◌, [], ◌∷◌, Bool, ℕ, Option,
  List,
}
use lanscope.App.{discovery, CaptureEvent}

-- What the ring buffer holds: the length of a record, and the event that is read from it.
pub record Item : Type 0 where
  pub len : ℕ
  pub event : Event

-- `mem::size_of::<Event>()`, with the padding
abbrev pub event_size : ℕ
event_size = 528

-- What was sent, and for how many more messages there is a receiver.
pub record Sender : Type 0 where
  pub sent : List CaptureEvent
  pub accepts : Option ℕ

-- `tx.send(…).await`: the sender after it, and whether it is `Ok`
unfoldable pub send : Sender → CaptureEvent → Sender × Bool
send tx ev = elim tx.accepts [
  | none ↦ (record tx { sent = tx.sent ++ ev ∷ [] }, true)
  | some zero ↦ (tx, false)
  | some (suc n) ↦ (record { sent = tx.sent ++ ev ∷ []; accepts = some n }, true)
]

-- `while let Some(item) = ring.next()`; what is left in the ring is returned, too.
unfoldable pub drain_events : List Item → Sender → List Item × Sender
unfolding send
drain_events [] tx = ([], tx)
drain_events (item ∷ ring) tx =
    let (tx', accepted) = send tx (discovery item.event) in
    let next = drain_events ring tx' in
    let skipped = drain_events ring tx in
    if leb event_size item.len then (if accepted then next else (ring, tx')) else skipped

-- `flows.remove(key)`, where a missing key is passed over
unfoldable pub remove : FlowKey → Dict FlowKey FlowStats → Dict FlowKey FlowStats
remove key [] = []
remove key ((k, stats) ∷ flows) =
    let rest = remove key flows in if k == key then rest else (k, stats) ∷ rest

unfoldable pub remove_all :
    List (FlowKey × FlowStats) → Dict FlowKey FlowStats → Dict FlowKey FlowStats
unfolding remove
remove_all [] flows = flows
remove_all ((key, stats) ∷ out) flows = remove_all out (remove key flows)

-- The map may be missing, or be of another type.
entries : Option (Dict FlowKey FlowStats) → List (FlowKey × FlowStats)
entries none = []
entries (some flows) = flows

removed :
    List (FlowKey × FlowStats) → Option (Dict FlowKey FlowStats) → Option (Dict FlowKey FlowStats)
removed out none = none
removed out (some flows) = some (remove_all out flows)

-- `drain_flows`, on the map as it is when it is read and as it is when the keys are removed
unfoldable pub drain_flows :
    Option (Dict FlowKey FlowStats)
    → Option (Dict FlowKey FlowStats)
    → List (FlowKey × FlowStats) × Option (Dict FlowKey FlowStats)
unfolding entries removed remove_all
drain_flows reading removing = (entries reading, removed (entries reading) removing)
