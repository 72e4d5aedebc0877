-- ===== src/Capture/Ebpf/Conserved.antt =====
-- Whether the drains report every packet that the kernel counts.
use lanscope.Capture.Ebpf.Drain.{keys-cover, keys_of, remove_all-covers}
use lanscope.Capture.Ebpf.{drain_flows}
use mathlib.Core.Option.{some-injective}
use lanscope.Common.Flow.{flow_key_Eq, FlowStats, FlowKey}
use lanscope.Kernel.Counters.{accumulate_flags, first_packet, add_packet}
use lanscope.Base.Dict.{insert, get, Dict}
use lanscope.Base.{
  ◌∙◌, sym, ==_iff, contains, All, ap, inr, inl, ◌⊎◌, ◌==◌, Option-cases, ◌^◌, ◌%◌, refl, none,
  if◌then◌else◌, [], Bool-cases, ◌≢◌, ◌≡◌, ◌∷◌, ◌<◌, true, some, arith, ◌≤◌, ◌+◌, ℕ, Bool, Option,
  List,
}
use lanscope.Kernel.{Kernel, update_flow}

-- A kernel whose `FLOWS` is a hash map; the table has room where `room` says so.
abbrev pub hash_map : (Dict FlowKey FlowStats → Bool) → Kernel
hash_map room = record {
  Seen = Unit;
  seen_get = λ s mac. (s, true);
  seen_insert = λ s mac. s;
  Flows = Dict FlowKey FlowStats;
  flows_get = λ flows key. get key flows;
  flows_insert = λ flows key stats. if room flows then insert key stats flows else flows;
  flows_write = λ flows key stats. insert key stats flows;
  Ring = Unit;
  reserve = λ r. none;
  submit = λ r ev. r;
  load_bytes = λ packet off n. none;
}

-- The packets that the entries count.
abbrev pub total : List (FlowKey × FlowStats) → ℕ
total [] = 0
total ((key, stats) ∷ flows) = stats.packets + total flows

abbrev packets_of : Option FlowStats → ℕ
packets_of none = 0
packets_of (some stats) = stats.packets

total-insert :
    (key : FlowKey) (stats : FlowStats) (flows : Dict FlowKey FlowStats)
    → total (insert key stats flows) + packets_of (get key flows) ≡ total flows + stats.packets
unfolding insert get
total-insert key stats [] = omega arith
total-insert key stats ((k, s) ∷ flows) = elim (Bool-cases (k == key)) [
  | inl same ↦ rw same (omega arith)
  | inr other ↦ rw other (omega (arith, total-insert key stats flows))
]

packets_of-le :
    (key : FlowKey) (flows : Dict FlowKey FlowStats) → packets_of (get key flows) ≤ total flows
unfolding get
packets_of-le key [] = omega arith
packets_of-le key ((k, s) ∷ flows) = elim (Bool-cases (k == key)) [
  | inl same ↦ rw same (omega arith)
  | inr other ↦ rw other (omega (arith, packets_of-le key flows))
]

add_packet-packets :
    (s : FlowStats) (len flags now : ℕ)
    → (add_packet s len flags now).packets ≡ (s.packets + 1) % 2 ^ 64
unfolding add_packet accumulate_flags
add_packet-packets s len flags now = refl

first_packet-packets : (len flags now : ℕ) → (first_packet len flags now).packets ≡ 1
unfolding first_packet accumulate_flags
first_packet-packets len flags now = refl

get-covered :
    (key : FlowKey) (flows : Dict FlowKey FlowStats)
    → get key flows ≢ none
    → contains (keys_of flows) key ≡ true
unfolding get
get-covered key [] known = absurd (known refl)
get-covered key ((k, s) ∷ flows) known = elim (Bool-cases (k == key)) [
  | inl same ↦ ground (arith, same, ==_iff k key, ==_iff key k)
  | inr other ↦ ground (arith, get-covered key flows (λ h. known (rw (other, h) refl)))
]

insert-covered :
    (keys : List FlowKey) (key : FlowKey) (stats : FlowStats) (flows : Dict FlowKey FlowStats)
    → All (λ e. contains keys e.0 ≡ true) flows
    → contains keys key ≡ true
    → All (λ e. contains keys e.0 ≡ true) (insert key stats flows)
unfolding insert
insert-covered keys key stats [] h known = (known, tt)
insert-covered keys key stats ((k, s) ∷ flows) h known = elim (Bool-cases (k == key)) [
  | inl same ↦ rw same (h.0, h.1)
  | inr other ↦ rw other (h.0, insert-covered keys key stats flows h.1 known)
]

module _ (room : Dict FlowKey FlowStats → Bool) where
  abbrev pub update : Dict FlowKey FlowStats → FlowKey → ℕ → ℕ → ℕ → Dict FlowKey FlowStats
  update = update_flow (hash_map room)

  -- The packet finds an entry, or room for one.
  abbrev pub Fits : FlowKey → Dict FlowKey FlowStats → Type 0
  Fits key flows = (get key flows ≢ none) ⊎ (room flows ≡ true)

  has_room :
      (key : FlowKey) (flows : Dict FlowKey FlowStats)
      → Fits key flows
      → get key flows ≡ none
      → room flows ≡ true
  has_room key flows (inl known) new = absurd (known new)
  has_room key flows (inr free) new = free

  total-update :
      (flows : Dict FlowKey FlowStats) (key : FlowKey) (len flags now : ℕ)
      → Fits key flows
      → total flows + 1 < 2 ^ 64
      → total (update flows key len flags now) ≡ total flows + 1
  unfolding update_flow
  total-update flows key len flags now fits small = elim (Option-cases (get key flows)) [
    | inl new ↦
        rw (new, update_flow, has_room key flows fits new)
          (omega (
            arith,
            total-insert key (first_packet len flags now) flows,
            ap packets_of new,
            first_packet-packets len flags now,
          ))
    | inr (stats, old) ↦
        rw (old, update_flow)
          (omega (
            arith,
            total-insert key (add_packet stats len flags now) flows,
            ap packets_of old,
            add_packet-packets stats len flags now,
            packets_of-le key flows,
            small,
          ))
  ]

  update-covered :
      (flows : Dict FlowKey FlowStats) (key : FlowKey) (len flags now : ℕ)
      → get key flows ≢ none
      → All (λ e. contains (keys_of flows) e.0 ≡ true) (update flows key len flags now)
  unfolding update_flow
  update-covered flows key len flags now known = elim (Option-cases (get key flows)) [
    | inl new ↦ absurd (known new)
    | inr (stats, old) ↦
        rw (old, update_flow)
          (insert-covered (keys_of flows) key (add_packet stats len flags now) flows
            (keys-cover flows) (get-covered key flows known))
  ]

  -- The flow table, the snapshots that were sent, and how many packets the kernel has counted.
  pub record Counting : Type 0 where
    pub flows : Dict FlowKey FlowStats
    pub snapshots : List (List (FlowKey × FlowStats))
    pub seen : ℕ

  -- A packet is counted, or a drain runs with no packet between its two passes.
  pub data Step (s : Counting) : Counting → Type 0 where
    counted :
        (key : FlowKey) (len flags now : ℕ)
        → Fits key s.flows
        → s.seen + 1 < 2 ^ 64
        → Step s (record s { flows = update s.flows key len flags now; seen = s.seen + 1 })
    drained :
        (after : Dict FlowKey FlowStats)
        → (drain_flows (some s.flows) (some s.flows)).1 ≡ some after
        → Step s (record s {
          flows = after;
          snapshots = (drain_flows (some s.flows) (some s.flows)).0 ∷ s.snapshots;
        })

  abbrev pub start : Counting
  start = record { flows = []; snapshots = []; seen = 0 }

  pub data Run : Counting → Type 0 where
    begin : Run start
    later : {s t : Counting} → Run s → Step s t → Run t

  -- The packets of all the snapshots.
  abbrev pub reported : List (List (FlowKey × FlowStats)) → ℕ
  reported [] = 0
  reported (snapshot ∷ snapshots) = total snapshot + reported snapshots

  -- Where every new flow finds room, fewer than 2 ^ 64 packets are counted and no packet comes
  -- between the two passes of a drain: the snapshots and the table together count every packet that
  -- the kernel has seen, once.
  pub Run-conserved : {s : Counting} → Run s → reported s.snapshots + total s.flows ≡ s.seen
  unfolding drain_flows
  Run-conserved begin = refl
  Run-conserved (later {s} r (counted key len flags now fits small)) =
      let before = Run-conserved r in
      omega
        (arith, before, total-update s.flows key len flags now fits (omega (arith, before, small)))
  Run-conserved (later {s} r (drained after eq)) =
      let before = Run-conserved r in
      let emptied : after ≡ [] =
        some-injective _ _ (sym eq) ∙ remove_all-covers s.flows s.flows (keys-cover s.flows) in
      omega (arith, before, ap total emptied)

  -- A packet that the kernel counts between the two passes of a drain, in an entry that was read, is
  -- lost: the snapshot has the count of before, and the table has no entry left.
  pub drain_flows_loses :
      (flows : Dict FlowKey FlowStats) (key : FlowKey) (len flags now : ℕ)
      → get key flows ≢ none
      → total flows + 1 < 2 ^ 64
      → let between = update flows key len flags now in
        (total between ≡ total flows + 1)
        × (total (drain_flows (some flows) (some between)).0 ≡ total flows)
        × ((drain_flows (some flows) (some between)).1 ≡ some [])
  unfolding drain_flows
  drain_flows_loses flows key len flags now known small = (
    total-update flows key len flags now (inl known) small,
    refl,
    ap some (
        remove_all-covers flows (update flows key len flags now)
          (update-covered flows key len flags now known)),
  )
