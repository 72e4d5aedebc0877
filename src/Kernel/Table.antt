-- ===== src/Kernel/Table.antt =====
-- What a packet of a flow does to the flow table.
use Prim.Native.Nat.{bit_and}
use mathlib.Core.Path.{subst}
use lanscope.Common.Flow.{FlowKey, FlowStats, flow_key_Eq}
use lanscope.Kernel.Flows.{Summary, Packet, IsCounter, counted, counted-Summary, with_flag}
use lanscope.Kernel.Counters.{first_packet, accumulate_flags, clamp_u16, count_flag}
use lanscope.Base.{
  sym, nat_Eq, ◌==◌, refl, some, none, inr, inl, ◌⊎◌, ◌≡◌, Option-cases, ℕ, ◌<◌, ◌+◌, ◌^◌,
  if◌then◌else◌, [], ◌∷◌, arith,
}
use lanscope.Kernel.{update_flow, Kernel}

module _ (k : Kernel) where
  open k use {Flows, flows_get, flows_insert, flows_write}

  -- What is documented of the hash map: an entry that is there can be written through its pointer; one
  -- that is not there is inserted, or the map is full and stays.
  pub record IsTable : Type 0 where
    pub writes :
        (m : Flows) (key : FlowKey) (old new : FlowStats) (j : FlowKey)
        → flows_get m key ≡ some old
        → flows_get (flows_write m key new) j ≡ (if key == j then some new else flows_get m j)
    pub inserts :
        (m : Flows) (key : FlowKey) (new : FlowStats)
        → flows_get m key ≡ none
        → ((j : FlowKey)
            → flows_get (flows_insert m key new) j ≡ (if key == j then some new else flows_get m j))
          ⊎ (flows_insert m key new ≡ m)

  -- The entry of a new flow after its first packet.
  pub record IsFirst (p : Packet) (t : FlowStats) : Type 0 where
    pub packets : t.packets ≡ 1
    pub bytes : t.bytes ≡ p.len
    pub times : (t.first_seen_ns ≡ p.time) × (t.last_seen_ns ≡ p.time)
    pub lengths : (t.min_len ≡ p.len) × (t.max_len ≡ p.len)
    pub syn : t.syn ≡ with_flag 0x02 (p ∷ [])
    pub fin : t.fin ≡ with_flag 0x01 (p ∷ [])
    pub rst : t.rst ≡ with_flag 0x04 (p ∷ [])
    pub ack : t.ack ≡ with_flag 0x10 (p ∷ [])

  -- The entry of a flow takes a packet in, and no other entry changes; a new flow is left out where the
  -- table is full.
  pub data Counts (before : Flows) (key : FlowKey) (p : Packet) : Flows → Type 0 where
    known_flow :
        {after : Flows} (old new : FlowStats)
        → flows_get before key ≡ some old
        → Summary old (p ∷ []) new
        → ((j : FlowKey) → flows_get after j ≡ (if key == j then some new else flows_get before j))
        → Counts before key p after
    new_flow :
        {after : Flows} (new : FlowStats)
        → flows_get before key ≡ none
        → IsFirst p new
        → ((j : FlowKey) → flows_get after j ≡ (if key == j then some new else flows_get before j))
        → Counts before key p after
    no_room : flows_get before key ≡ none → Counts before key p before

  first_packet-IsFirst :
      (p : Packet) → p.len < 2 ^ 16 → IsFirst p (first_packet p.len p.flags p.time)
  unfolding first_packet accumulate_flags
  first_packet-IsFirst p small = record {
    packets = refl;
    bytes = refl;
    times = (refl, refl);
    lengths = (clamped p.len small, clamped p.len small);
    syn = flagged p.flags 0x02;
    fin = flagged p.flags 0x01;
    rst = flagged p.flags 0x04;
    ack = flagged p.flags 0x10;
  }
    where
      clamped : (len : ℕ) → len < 2 ^ 16 → clamp_u16 len ≡ len
      clamped len h = ground (arith, h)

      flagged :
          (flags bit : ℕ) → count_flag flags bit 0 ≡ (if bit_and flags bit == 0 then 0 else 1) + 0
      flagged flags bit = ground arith

  inserted-Counts :
      (m : Flows) (key : FlowKey) (p : Packet)
      → IsTable
      → flows_get m key ≡ none
      → p.len < 2 ^ 16
      → Counts m key p (flows_insert m key (first_packet p.len p.flags p.time))
  inserted-Counts m key p table new small =
      elim (table.inserts m key (first_packet p.len p.flags p.time) new) [
        | inl stored ↦
            new_flow (first_packet p.len p.flags p.time) new (first_packet-IsFirst p small) stored
        | inr full ↦ subst (Counts m key p) (sym full) (no_room new)
      ]

  pub update_flow-Counts :
      (m : Flows) (key : FlowKey) (p : Packet)
      → IsTable
      → ((s : FlowStats) → flows_get m key ≡ some s → IsCounter s)
      → p.len < 2 ^ 16
      → Counts m key p (update_flow k m key p.len p.flags p.time)
  unfolding update_flow counted
  update_flow-Counts m key p table counters small = elim (Option-cases (flows_get m key)) [
    | inl new ↦ rw (new, update_flow) (inserted-Counts m key p table new small)
    | inr (old, known) ↦
        rw (known, update_flow)
          (known_flow old (counted old (p ∷ [])) known
            (counted-Summary old (p ∷ []) (counters old known) (small, tt))
            (λ j. table.writes m key old (counted old (p ∷ [])) j known))
  ]
