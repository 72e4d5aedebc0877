-- ===== src/Tests/Backends.antt =====
-- The capture backends.
use lanscope.Capture.{sample_events}
use lanscope.Capture.Portable.Prefix.{some_ends, run_portable_sends, replayed, sender_of}
use lanscope.Capture.Portable.{run_portable, new_portable}
use lanscope.Capture.Ebpf.Drain.{keys-cover, remove_all-covers}
use lanscope.Capture.Select.Fallback.{select_backend_exact, IsUsable}
use lanscope.Capture.Ebpf.{drain_flows}
use lanscope.Capture.Ebpf.Conserved.{
  drain_flows_loses, Run-conserved, Counting, begin, counted, drained, later, total, update, Run,
  reported,
}
use lanscope.App.{flows, discovery}
use lanscope.Capture.Ebpf.Loop.{shutdown_changed, readable, Wake, backend_loop, ticked}
use lanscope.Capture.Select.{in_kernel, portable, select_backend}
use lanscope.Error.{ok}
use lanscope.Base.Text.{codes}
use lanscope.Common.Flow.{flow_key_Eq, FlowStats, FlowKey}
use lanscope.Capture.Ebpf.Loop.Sent.{backend_loop_sends, open_sender}
use lanscope.Capture.Ebpf.Attach.{skb_mode, default_mode, EbpfBackend, Aya}
use lanscope.Base.Dict.{get, Dict}
use lanscope.Base.{
  ◌||◌, ltb, length, take, ◌++◌, false, refl, arith, ◌⊎◌, ◌≢◌, ap, inl, none, Bool, ◌≡◌, true, some,
  inr, [], ◌∷◌, ◌+◌, List,
}
use lanscope.App.Config.{gateway, Config}
use lanscope.Tests.Samples.{one_flow, some_stats, arp_event}

abbrev always : Dict FlowKey FlowStats → Bool
always entries = true

abbrev one_entry : Dict FlowKey FlowStats
one_entry = update always [] one_flow 60 2 5

one_entry-drained : (drain_flows (some one_entry) (some one_entry)).1 ≡ some []
unfolding drain_flows
one_entry-drained = ap some (remove_all-covers one_entry one_entry (keys-cover one_entry))

-- A packet is counted, and then the table is drained.
abbrev drained_once : Counting always
drained_once = record {
  flows = [];
  snapshots = (drain_flows (some one_entry) (some one_entry)).0 ∷ [];
  seen = 1;
}

counted-Run : Run always drained_once
counted-Run =
    later (later begin (counted one_flow 60 2 5 (inr refl) (omega arith)))
      (drained [] one_entry-drained)

Run-conserved_example : reported always drained_once.snapshots + total [] ≡ 1
Run-conserved_example = Run-conserved always counted-Run

some_known : get one_flow ((one_flow, some_stats) ∷ []) ≢ none
unfolding get
some_known h = cc

abbrev table : Dict FlowKey FlowStats
table = (one_flow, some_stats) ∷ []

drain_flows_loses_example :
    let between = update always table one_flow 60 16 9 in
    (total between ≡ total table + 1)
    × (total (drain_flows (some table) (some between)).0 ≡ total table)
    × ((drain_flows (some table) (some between)).1 ≡ some [])
drain_flows_loses_example = drain_flows_loses always table one_flow 60 16 9 some_known (omega arith)

abbrev wakes : List Wake
wakes =
    readable
      (inr (record { len = 528; event = arp_event } ∷ record { len = 4; event = arp_event } ∷ []))
    ∷ ticked (some ((one_flow, some_stats) ∷ []))
    ∷ shutdown_changed (some true)
    ∷ ticked (some ((one_flow, some_stats) ∷ []))
    ∷ []

backend_loop_sends_example : backend_loop (open_sender []) wakes ≡ record {
  tx = open_sender (discovery arp_event ∷ flows ((one_flow, some_stats) ∷ []) ∷ []);
  returned = some (ok tt);
}
backend_loop_sends_example = backend_loop_sends [] wakes

-- A library on which every stage succeeds but the attachment in the mode of the driver.
abbrev generic_only : Aya
generic_only = record {
  Ebpf = Unit;
  Program = Unit;
  Xdp = Unit;
  load = inr tt;
  program_mut = λ object name. some tt;
  try_into = λ program. inr tt;
  load_program = λ xdp. inr tt;
  attach = λ xdp interface flags. elim flags [
    | default_mode ↦ inl (codes "not supported")
    | skb_mode ↦ inr tt
  ];
}

abbrev gateway_config : Config
gateway_config = record {
  mode = gateway;
  interface = codes "eth0";
  db_path = codes "lanscope.db";
  flow_drain_interval = 2;
  model_path = none;
}

select_backend_exact_example :
    ((b : EbpfBackend generic_only) × (select_backend generic_only true gateway_config
        ≡ ok (in_kernel b))
      × (true ≡ true)
      × IsUsable generic_only gateway_config b)
    ⊎ ((select_backend generic_only true gateway_config
          ≡ ok (portable (new_portable gateway_config)))
        × ((b : EbpfBackend generic_only) → true ≡ true → ¬ IsUsable generic_only gateway_config b))
select_backend_exact_example = select_backend_exact generic_only true gateway_config

run_portable_sends_example :
    ((run_portable (sender_of [] 9) false (some false ∷ none ∷ [])).0.sent ≡ [] ++ take 9 replayed)
    × ((run_portable (sender_of [] 9) false (some false ∷ none ∷ [])).1
        ≡ (ltb 9 (length sample_events) || (false || some_ends (some false ∷ none ∷ []))))
run_portable_sends_example = run_portable_sends [] 9 false (some false ∷ none ∷ [])
