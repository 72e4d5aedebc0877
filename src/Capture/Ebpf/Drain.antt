-- ===== src/Capture/Ebpf/Drain.antt =====
-- What a drain leaves in the flow table.
use lanscope.Common.Flow.{flow_key_Eq, FlowStats, FlowKey}
use lanscope.Base.{
  All-imp, inr, refl, inl, ==_iff, ◌∙◌, arith, [], Bool-cases, ◌∷◌, ◌==◌, true, none, if◌then◌else◌,
  contains, ◌≡◌, some, map, All, List,
}
use lanscope.Capture.Ebpf.{remove_all, remove, drain_flows}
use lanscope.Base.Dict.{get, Dict}

abbrev pub keys_of : Dict FlowKey FlowStats → List FlowKey
keys_of = map (λ e. e.0)

remove-get :
    (key j : FlowKey) (flows : Dict FlowKey FlowStats)
    → get j (remove key flows) ≡ (if key == j then none else get j flows)
unfolding get remove
remove-get key j [] = ground arith
remove-get key j ((k, stats) ∷ flows) =
    ground (arith, remove-get key j flows, ==_iff k key, ==_iff k j, ==_iff key j)

remove_all-get :
    (out : List (FlowKey × FlowStats)) (j : FlowKey) (flows : Dict FlowKey FlowStats)
    → get j (remove_all out flows) ≡ (if contains (keys_of out) j then none else get j flows)
unfolding remove_all
remove_all-get [] j flows = refl
remove_all-get ((key, stats) ∷ out) j flows =
    remove_all-get out j (remove key flows) ∙ ground (arith, remove-get key j flows)

-- The entries that stay are none of those that were read, but for one key that is removed.
All-remove :
    (key : FlowKey) (keys : List FlowKey) (flows : Dict FlowKey FlowStats)
    → All (λ e. contains (key ∷ keys) e.0 ≡ true) flows
    → All (λ e. contains keys e.0 ≡ true) (remove key flows)
unfolding remove
All-remove key keys [] h = tt
All-remove key keys ((k, stats) ∷ flows) h = elim (Bool-cases (k == key)) [
  | inl same ↦ rw same (All-remove key keys flows h.1)
  | inr other ↦
      rw other
        (ground (arith, h.0, other, ==_iff k key, ==_iff key k), All-remove key keys flows h.1)
]

pub remove_all-covers :
    (out : List (FlowKey × FlowStats)) (flows : Dict FlowKey FlowStats)
    → All (λ e. contains (keys_of out) e.0 ≡ true) flows
    → remove_all out flows ≡ []
unfolding remove_all
remove_all-covers [] [] h = refl
remove_all-covers [] (e ∷ flows) h = cc
remove_all-covers ((key, stats) ∷ out) flows h =
    remove_all-covers out (remove key flows) (All-remove key (keys_of out) flows h)

pub keys-cover :
    (flows : Dict FlowKey FlowStats) → All (λ e. contains (keys_of flows) e.0 ≡ true) flows
keys-cover [] = tt
keys-cover ((key, stats) ∷ flows) = (
  ground (arith, ==_iff key key),
  All-imp (λ e. contains (keys_of flows) e.0 ≡ true)
      (λ e. contains (key ∷ keys_of flows) e.0 ≡ true) (λ e h. ground (arith, h)) flows
      (keys-cover flows),
)

-- A drain reports the entries of the table as it was read. Afterwards the table has no entry under
-- a key that was read, and under any other key what it held when the keys were removed.
pub drain_flows_exact :
    (reading removing : Dict FlowKey FlowStats) (key : FlowKey)
    → (after : Dict FlowKey FlowStats) × (drain_flows (some reading) (some removing)
        ≡ (reading, some after))
      × (get key after ≡ (if contains (keys_of reading) key then none else get key removing))
unfolding drain_flows
drain_flows_exact reading removing key =
    (remove_all reading removing, refl, remove_all-get reading key removing)
