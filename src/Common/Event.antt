-- ===== src/Common/Event.antt =====
-- lanscope-common/src/event.rs: discovery events.
use lanscope.Base.{
  ℕ, ◌⊎◌, ◌≡◌, arith, min, ◌==◌, nat_Eq, if◌then◌else◌, length, take, length-take, replicate,
}
use lanscope.Base.Text.{Bytes}
use lanscope.Common.{MacAddr, zero_mac}

abbrev pub event_payload_len : ℕ
event_payload_len = 512

pub data EventKind : Type 0 where
  new_host arp dhcp mdns ssdp tls_hello unknown : EventKind

unfoldable pub from_u8 : ℕ → EventKind
from_u8 v =
    if v == 0
    then new_host
    else if v == 1
    then arp
    else if v == 2
    then dhcp
    else if v == 3
    then mdns
    else if v == 4
    then ssdp
    else if v == 5
    then tls_hello
    else unknown

-- `kind as u8`: the discriminants of `#[repr(u8)]`.
unfoldable pub to_u8 : EventKind → ℕ
to_u8 new_host = 0
to_u8 arp = 1
to_u8 dhcp = 2
to_u8 mdns = 3
to_u8 ssdp = 4
to_u8 tls_hello = 5
to_u8 unknown = 255

-- The padding bytes, which are zero and never read, are left out.
pub record Event : Type 0 where
  pub kind : ℕ
  pub payload_len : ℕ
  pub src_ip : ℕ
  pub src_mac : MacAddr
  pub payload : Bytes

unfoldable pub event_kind : Event → EventKind
event_kind ev = from_u8 ev.kind

-- `Event::payload`: the valid prefix.
unfoldable pub valid_payload : Event → Bytes
valid_payload ev = take (min ev.payload_len event_payload_len) ev.payload

-- `Event::default()`
abbrev pub default_event : Event
default_event = record {
  kind = to_u8 unknown;
  payload_len = 0;
  src_ip = 0;
  src_mac = zero_mac;
  payload = replicate event_payload_len 0;
}

-- A kind is read back from its discriminant, and a byte that is read as a known kind is the
-- discriminant of that kind.
pub EventKind-codes :
    (k : EventKind) (v : ℕ)
    → (from_u8 (to_u8 k) ≡ k) × ((to_u8 (from_u8 v) ≡ v) ⊎ (from_u8 v ≡ unknown))
unfolding from_u8 to_u8
EventKind-codes k v = (ground arith, ground arith)

-- The valid part of a payload of 512 bytes has the length that the event states, at most 512.
pub length-valid_payload :
    (ev : Event)
    → length ev.payload ≡ event_payload_len
    → length (valid_payload ev) ≡ min ev.payload_len event_payload_len
unfolding valid_payload
length-valid_payload ev h =
    omega (arith, length-take (min ev.payload_len event_payload_len) ev.payload)
