-- ===== src/Capture/Ebpf/Loop/Told.antt =====
-- The task of the backend in the kernel once it is told to stop.
use lanscope.Base.{
  ◌≡◌, inl, inr, Bool, true, false, Option, none, some, List, [], ◌∷◌, ◌++◌, refl, Bool-cases,
}
use lanscope.Error.{Result, ok, err}
use lanscope.Capture.Ebpf.{Sender, drain_events, drain_flows}
use lanscope.Capture.Ebpf.Loop.{
  Ring, Wake, readable, ticked, shutdown_changed, backend_loop, run_ebpf, send_flows, started,
  set_up,
}

abbrev pub has_returned : Option (Result {0} Unit) → Bool
has_returned none = false
has_returned (some r) = true

backend_loop-told :
    (tx : Sender) (wakes : List Wake)
    → has_returned (backend_loop tx (wakes ++ shutdown_changed (some true) ∷ [])).returned ≡ true
unfolding backend_loop drain_flows
backend_loop-told tx [] = refl
backend_loop-told tx (readable (inl e) ∷ rest) = refl
backend_loop-told tx (readable (inr ring) ∷ rest) = backend_loop-told (drain_events ring tx).1 rest
backend_loop-told tx (ticked table ∷ rest) =
    let (tx', go_on) = send_flows tx (drain_flows table table).0 in
    elim (Bool-cases go_on) [
      | inl goes ↦ rw goes (backend_loop-told tx' rest)
      | inr ends ↦ rw ends refl
    ]
backend_loop-told tx (shutdown_changed none ∷ rest) = refl
backend_loop-told tx (shutdown_changed (some true) ∷ rest) = refl
backend_loop-told tx (shutdown_changed (some false) ∷ rest) = backend_loop-told tx rest

-- Whatever came before, the task returns once the shutdown flag is set.
pub run_ebpf-told :
    (ring : Ring) (tx : Sender) (wakes : List Wake)
    → has_returned (run_ebpf ring tx (wakes ++ shutdown_changed (some true) ∷ [])).returned ≡ true
unfolding run_ebpf started
run_ebpf-told ring tx wakes = told (set_up ring)
  where
    told :
        (r : Result {0} Unit)
        → has_returned (started ring r tx (wakes ++ shutdown_changed (some true) ∷ [])).returned
          ≡ true
    told (ok x) = backend_loop-told tx wakes
    told (err e) = refl
