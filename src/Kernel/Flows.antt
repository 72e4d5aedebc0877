-- ===== src/Kernel/Flows.antt =====
-- What the counters of a flow say of its packets.
use Prim.Native.Nat.{bit_and}
use lanscope.Kernel.Counters.{clamp_u16, count_flag, accumulate_flags, add_packet}
use lanscope.Common.Flow.{FlowStats}
use lanscope.Base.{
  nat_Eq, ◌==◌, refl, ◌≤◌, ◌∙◌, suc, ltb, ◌^◌, ◌%◌, length, if◌then◌else◌, arith, [], All, ◌≡◌, ◌∷◌,
  ◌<◌, ◌+◌, ℕ, List,
}

-- A packet of the flow: its length, its flags and the time of the kernel.
pub record Packet : Type 0 where
  pub len : ℕ
  pub flags : ℕ
  pub time : ℕ

-- The entry after more packets of the flow.
unfoldable pub counted : FlowStats → List Packet → FlowStats
unfolding add_packet
counted s [] = s
counted s (p ∷ packets) = counted (add_packet s p.len p.flags p.time) packets

abbrev pub total_len : List Packet → ℕ
total_len [] = 0
total_len (p ∷ packets) = p.len + total_len packets

-- How many of the packets have a flag.
abbrev pub with_flag : ℕ → List Packet → ℕ
with_flag bit [] = 0
with_flag bit (p ∷ packets) = (if bit_and p.flags bit == 0 then 0 else 1) + with_flag bit packets

abbrev pub last_time : ℕ → List Packet → ℕ
last_time t [] = t
last_time t (p ∷ packets) = last_time p.time packets

-- What a summary of packets says, from the counters that it starts with.
pub record Summary (s : FlowStats) (packets : List Packet) (t : FlowStats) : Type 0 where
  pub packet_count : t.packets ≡ (s.packets + length packets) % 2 ^ 64
  pub byte_count : t.bytes ≡ (s.bytes + total_len packets) % 2 ^ 64
  pub syn_count : t.syn ≡ (s.syn + with_flag 0x02 packets) % 2 ^ 32
  pub fin_count : t.fin ≡ (s.fin + with_flag 0x01 packets) % 2 ^ 32
  pub rst_count : t.rst ≡ (s.rst + with_flag 0x04 packets) % 2 ^ 32
  pub ack_count : t.ack ≡ (s.ack + with_flag 0x10 packets) % 2 ^ 32
  pub first : t.first_seen_ns ≡ s.first_seen_ns
  pub last : t.last_seen_ns ≡ last_time s.last_seen_ns packets
  pub least : (t.min_len ≤ s.min_len) × All (λ p. t.min_len ≤ p.len) packets
  pub greatest : (s.max_len ≤ t.max_len) × All (λ p. p.len ≤ t.max_len) packets

-- The counters are within their widths.
abbrev pub IsCounter : FlowStats → Type 0
IsCounter s =
    (s.packets < 2 ^ 64)
    × (s.bytes < 2 ^ 64)
    × (s.syn < 2 ^ 32)
    × (s.fin < 2 ^ 32)
    × (s.rst < 2 ^ 32)
    × (s.ack < 2 ^ 32)

count_flag-lt : (flags bit n : ℕ) → n < 2 ^ 32 → count_flag flags bit n < 2 ^ 32
count_flag-lt flags bit n h = ground (arith, h)

add_packet-IsCounter :
    (s : FlowStats) (len flags time : ℕ) → IsCounter s → IsCounter (add_packet s len flags time)
unfolding add_packet accumulate_flags
add_packet-IsCounter s len flags time h = (
  omega arith,
  omega arith,
  count_flag-lt flags 0x02 s.syn h.2,
  count_flag-lt flags 0x01 s.fin h.3,
  count_flag-lt flags 0x04 s.rst h.4,
  count_flag-lt flags 0x10 s.ack h.5,
)

mod_step : (a b n t : ℕ) → t ≡ ((a + b) % 2 ^ 64 + n) % 2 ^ 64 → t ≡ (a + (b + n)) % 2 ^ 64
mod_step a b n t h = omega (arith, h)

flag_step :
    (flags bit a n t : ℕ)
    → t ≡ (count_flag flags bit a + n) % 2 ^ 32
    → t ≡ (a + ((if bit_and flags bit == 0 then 0 else 1) + n)) % 2 ^ 32
flag_step flags bit a n t h = ground (arith, h)

suc_step : (a n : ℕ) → (a + (1 + n)) % 2 ^ 64 ≡ (a + suc n) % 2 ^ 64
suc_step a n = omega arith

least_step :
    (len min t : ℕ)
    → len < 2 ^ 16
    → t ≤ (if ltb (clamp_u16 len) min then clamp_u16 len else min)
    → (t ≤ min) × (t ≤ len)
least_step len min t h le = (ground (arith, h, le), ground (arith, h, le))

greatest_step :
    (len max t : ℕ)
    → len < 2 ^ 16
    → (if ltb max (clamp_u16 len) then clamp_u16 len else max) ≤ t
    → (max ≤ t) × (len ≤ t)
greatest_step len max t h le = (ground (arith, h, le), ground (arith, h, le))

-- Where the counters are within their widths and the lengths of the packets in 16 bits: after any
-- packets of a flow its entry counts them, their bytes and their flags, each modulo the
-- width of the counter; it has the time of the last, and bounds their lengths from both sides.
pub counted-Summary :
    (s : FlowStats) (packets : List Packet)
    → IsCounter s
    → All (λ p. p.len < 2 ^ 16) packets
    → Summary s packets (counted s packets)
unfolding counted add_packet accumulate_flags
counted-Summary s [] c h = record {
  packet_count = omega (arith, c.0);
  byte_count = omega (arith, c.1);
  syn_count = omega (arith, c.2);
  fin_count = omega (arith, c.3);
  rst_count = omega (arith, c.4);
  ack_count = omega (arith, c.5);
  first = refl;
  last = refl;
  least = (omega arith, tt);
  greatest = (omega arith, tt);
}
counted-Summary s (p ∷ packets) c h =
    let rest =
      counted-Summary (add_packet s p.len p.flags p.time) packets
        (add_packet-IsCounter s p.len p.flags p.time c) h.1 in
    record {
      packet_count =
          mod_step s.packets 1 (length packets) _ rest.packet_count
          ∙ suc_step s.packets (length packets);
      byte_count = mod_step s.bytes p.len (total_len packets) _ rest.byte_count;
      syn_count = flag_step p.flags 0x02 s.syn _ _ rest.syn_count;
      fin_count = flag_step p.flags 0x01 s.fin _ _ rest.fin_count;
      rst_count = flag_step p.flags 0x04 s.rst _ _ rest.rst_count;
      ack_count = flag_step p.flags 0x10 s.ack _ _ rest.ack_count;
      first = rest.first;
      last = rest.last;
      least =
          (let both = least_step p.len s.min_len _ h.0 rest.least.0 in
            (both.0, (both.1, rest.least.1)));
      greatest =
          (let both = greatest_step p.len s.max_len _ h.0 rest.greatest.0 in
            (both.0, (both.1, rest.greatest.1)));
    }
