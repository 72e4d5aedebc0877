-- ===== src/Common/Flow.antt =====
-- lanscope-common/src/flow.rs: flow identity and aggregate counters.
use lanscope.Base.{◌⊎◌, ℕ, ◌-◌, ◌≡◌, ◌↔◌, Bool, true, ◌&&◌, arith, ◌==◌, Eq, nat_Eq, if◌then◌else◌}
use lanscope.Base.Float.{Floats}

pub data Protocol : Type 0 where
  icmp tcp udp other : Protocol

unfoldable pub from_u8 : ℕ → Protocol
from_u8 v = if v == 1 then icmp else if v == 6 then tcp else if v == 17 then udp else other

-- The discriminants of `#[repr(u8)]`.
unfoldable pub to_u8 : Protocol → ℕ
to_u8 icmp = 1
to_u8 tcp = 6
to_u8 udp = 17
to_u8 other = 255

-- The padding bytes, which are zero and never read, are left out.
pub record FlowKey : Type 0 where
  pub src_ip : ℕ
  pub dst_ip : ℕ
  pub src_port : ℕ
  pub dst_port : ℕ
  pub protocol : ℕ

abbrev pub flow_key : ℕ → ℕ → ℕ → ℕ → ℕ → FlowKey
flow_key src_ip dst_ip src_port dst_port protocol = record {
  src_ip = src_ip;
  dst_ip = dst_ip;
  src_port = src_port;
  dst_port = dst_port;
  protocol = protocol;
}

abbrev pub flow_key_same : FlowKey → FlowKey → Bool
flow_key_same a b =
    a.src_ip == b.src_ip
    && (a.dst_ip == b.dst_ip
        && (a.src_port == b.src_port && (a.dst_port == b.dst_port && a.protocol == b.protocol)))

pub flow_key_same_iff : (a b : FlowKey) → (flow_key_same a b ≡ true) ↔ (a ≡ b)
flow_key_same_iff a b = ground arith

instance abbrev pub flow_key_Eq : Eq FlowKey
flow_key_Eq = record { same = flow_key_same; same_iff = flow_key_same_iff }

pub record FlowStats : Type 0 where
  pub packets : ℕ
  pub bytes : ℕ
  pub first_seen_ns : ℕ
  pub last_seen_ns : ℕ
  pub syn : ℕ
  pub fin : ℕ
  pub rst : ℕ
  pub ack : ℕ
  pub min_len : ℕ
  pub max_len : ℕ

-- `FlowStats::default()`
abbrev pub no_stats : FlowStats
no_stats = record {
  packets = 0;
  bytes = 0;
  first_seen_ns = 0;
  last_seen_ns = 0;
  syn = 0;
  fin = 0;
  rst = 0;
  ack = 0;
  min_len = 0;
  max_len = 0;
}

module _ (fl : Floats) where
  open fl use {F64, of_int, literal, div, le}

  -- `saturating_sub` is the truncated subtraction.
  unfoldable pub duration_secs : FlowStats → F64
  duration_secs s = div (of_int (s.last_seen_ns - s.first_seen_ns)) (literal 1000000000 0)

  unfoldable pub bytes_per_sec : FlowStats → F64
  bytes_per_sec s =
      let d = duration_secs s in
      if le d (literal 0 0) then of_int s.bytes else div (of_int s.bytes) d

  unfoldable pub mean_packet_len : FlowStats → F64
  mean_packet_len s =
      if s.packets == 0 then literal 0 0 else div (of_int s.bytes) (of_int s.packets)

-- A protocol is read back from its discriminant, and a raw byte that is read as a known protocol
-- is the discriminant of that protocol.
pub Protocol-codes :
    (p : Protocol) (v : ℕ)
    → (from_u8 (to_u8 p) ≡ p) × ((to_u8 (from_u8 v) ≡ v) ⊎ (from_u8 v ≡ other))
unfolding from_u8 to_u8
Protocol-codes p v = (ground arith, ground arith)
