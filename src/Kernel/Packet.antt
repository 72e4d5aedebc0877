-- ===== src/Kernel/Packet.antt =====
-- lanscope-ebpf/src/main.rs: what the program reads of a packet.
use lanscope.Common.Event.{ssdp, mdns, dhcp, EventKind}
use lanscope.Common.{MacAddr}
use Prim.Native.Nat.{bit_and}
use lanscope.Base.Text.{Bytes}
use lanscope.Base.{
  drop, take, length, nat_Eq, ltb, leb, ◌||◌, ◌*◌, none, if◌then◌else◌, ◌==◌, ◌+◌, some, get_elem?,
  Option, Bool, ℕ,
}

infixl 5 ◌>>=◌
abbrev ◌>>=◌ {ℓ κ} : {A : Type ℓ} {B : Type κ} → Option A → (A → Option B) → Option B
none >>= f = none
some a >>= f = f a

abbrev pub eth_hdr_len : ℕ
eth_hdr_len = 14

-- The packet from `data` up to `data_end`. A read past the end is an error.
unfoldable pub load_u8 : Bytes → ℕ → Option ℕ
load_u8 packet off = get_elem? packet off

unfoldable pub load_u16_be : Bytes → ℕ → Option ℕ
unfolding load_u8
load_u16_be packet off = do
  hi ← load_u8 packet off
  lo ← load_u8 packet (off + 1)
  some (hi * 256 + lo)

unfoldable pub load_u32_be : Bytes → ℕ → Option ℕ
unfolding load_u8
load_u32_be packet off = do
  a ← load_u8 packet off
  b ← load_u8 packet (off + 1)
  c ← load_u8 packet (off + 2)
  d ← load_u8 packet (off + 3)
  some (a * 16777216 + (b * 65536 + (c * 256 + d)))

unfoldable pub load_mac : Bytes → ℕ → Option MacAddr
load_mac packet off =
    if leb (off + 6) (length packet) then some (take 6 (drop off packet)) else none

-- What `handle_ipv4` reads of the header, and where the next one starts.
pub record Ipv4 : Type 0 where
  pub l4 : ℕ
  pub total_len : ℕ
  pub proto : ℕ
  pub src_ip : ℕ
  pub dst_ip : ℕ

unfoldable pub parse_ipv4 : Bytes → Option Ipv4
unfolding load_u8 load_u16_be load_u32_be
parse_ipv4 packet = do
  ver_ihl ← load_u8 packet eth_hdr_len
  let ihl = bit_and ver_ihl 0x0f * 4
  total_len ← if ltb ihl 20 then none else load_u16_be packet (eth_hdr_len + 2)
  proto ← load_u8 packet (eth_hdr_len + 9)
  src_ip ← load_u32_be packet (eth_hdr_len + 12)
  dst_ip ← load_u32_be packet (eth_hdr_len + 16)
  some (record {
    l4 = eth_hdr_len + ihl;
    total_len = total_len;
    proto = proto;
    src_ip = src_ip;
    dst_ip = dst_ip;
  })

-- The source address and the type of the frame
unfoldable pub ethernet : Bytes → Option (MacAddr × ℕ)
unfolding load_mac load_u16_be
ethernet packet = do
  src_mac ← load_mac packet 6
  ethertype ← load_u16_be packet 12
  some (src_mac, ethertype)

abbrev pub either_port : ℕ → ℕ → ℕ → Bool
either_port src dst port = src == port || dst == port

-- `udp_discovery_kind`
unfoldable pub udp_discovery_kind : ℕ → ℕ → Option EventKind
udp_discovery_kind src dst =
    if either_port src dst 67 || either_port src dst 68
    then some dhcp
    else if either_port src dst 5353
    then some mdns
    else if either_port src dst 1900
    then some ssdp
    else none
