-- ===== src/Capture/Ebpf/Loop.antt =====
-- The task that `spawn` of lanscope/src/capture/ebpf.rs starts.
pub mod Sent
pub mod Told
use lanscope.Base.{
  ◌++◌, ◌⊎◌, inl, inr, Bool, true, false, if◌then◌else◌, Option, none, some, List, [], ◌∷◌,
}
use lanscope.Base.Text.{codes, Bytes}
use lanscope.Base.Dict.{Dict}
use lanscope.Error.{Error, Result, ok, err, io, backend_unavailable, ◌>>=◌}
use lanscope.Common.Flow.{FlowKey, FlowStats}
use lanscope.Capture.Ebpf.{Item, Sender, send, drain_events, drain_flows}
use lanscope.App.{flows}

-- A branch of `select!`: the ring buffer is readable and holds records, or waiting for it fails; the
-- timer ticks, on the flow table as it is read; the shutdown flag changes, `None` where its sender
-- is gone. The table as it is when the keys are removed matters to the kernel only.
pub data Wake : Type 0 where
  readable : Bytes ⊎ List Item → Wake
  ticked : Option (Dict FlowKey FlowStats) → Wake
  shutdown_changed : Option Bool → Wake

-- What was sent, and what the task returned when it has.
pub record Progress : Type 0 where
  pub tx : Sender
  pub returned : Option (Result {0} Unit)

is_stop : Option Bool → Bool
is_stop none = true
is_stop (some flag) = flag

-- `!flows.is_empty() && tx.send(…).await.is_err()`: the sender after it, and whether the loop goes on
unfoldable pub send_flows : Sender → List (FlowKey × FlowStats) → Sender × Bool
unfolding send
send_flows tx [] = (tx, true)
send_flows tx (entry ∷ out) = send tx (flows (entry ∷ out))

unfoldable pub backend_loop : Sender → List Wake → Progress
unfolding is_stop send_flows drain_events drain_flows
backend_loop tx [] = record { tx = tx; returned = none }
backend_loop tx (readable (inl e) ∷ rest) = record { tx = tx; returned = some (err (io e)) }
backend_loop tx (readable (inr ring) ∷ rest) = backend_loop (drain_events ring tx).1 rest
backend_loop tx (ticked table ∷ rest) =
    let (tx', go_on) = send_flows tx (drain_flows table table).0 in
    let next = backend_loop tx' rest in
    if go_on then next else record { tx = tx'; returned = some (ok tt) }
backend_loop tx (shutdown_changed res ∷ rest) =
    let next = backend_loop tx rest in
    if is_stop res then record { tx = tx; returned = some (ok tt) } else next

-- `internal`
unfoldable pub internal : Bytes → Error
internal msg = backend_unavailable (codes "ebpf") msg

-- `aya` and `tokio` on the map of events: the ring buffer on it, and the descriptor that is waited
-- for, or the text of an error
pub record Ring : Type 1 where
  pub Map : Type 0
  pub Buffer : Type 0
  pub take_map : Option Map
  pub try_from : Map → Bytes ⊎ Buffer
  pub async_fd : Buffer → Option Bytes

module _ (r : Ring) where
  open r use {Map, Buffer, take_map, try_from, async_fd}

  events_map : Option Map → Result Map
  unfolding internal
  events_map none = err (internal (codes "EVENTS map missing"))
  events_map (some map) = ok map

  ring_buffer : Bytes ⊎ Buffer → Result Buffer
  unfolding internal
  ring_buffer (inl e) = err (internal (codes "ring buffer: " ++ e))
  ring_buffer (inr ring) = ok ring

  descriptor : Option Bytes → Result {0} Unit
  descriptor none = ok tt
  descriptor (some e) = err (io e)

  set_up : Result {0} Unit
  unfolding events_map ring_buffer descriptor
  set_up = do
    map ← events_map take_map
    ring ← ring_buffer (try_from map)
    descriptor (async_fd ring)

  started : Result {0} Unit → Sender → List Wake → Progress
  unfolding backend_loop
  started (ok _) tx wakes = backend_loop tx wakes
  started (err e) tx wakes = record { tx = tx; returned = some (err e) }

  -- The body of `spawn`
  unfoldable pub run_ebpf : Sender → List Wake → Progress
  unfolding set_up started
  run_ebpf tx wakes = started set_up tx wakes
