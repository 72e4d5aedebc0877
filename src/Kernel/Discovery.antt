-- ===== src/Kernel/Discovery.antt =====
-- The discovery packets: what userspace decodes of the event that the program sends for them.
use lanscope.Decode.Dhcp
use lanscope.Common.Event.{
  unknown, tls_hello, ssdp, mdns, dhcp, arp, new_host, from_u8, to_u8, valid_payload, event_kind,
  Event, EventKind,
}
use lanscope.Decode.Dhcp.Truncated.{decode-take, fitting}
use lanscope.Decode.Dhcp.RoundTrip.{signals_of, IsOption, message}
use lanscope.Base.{
  ◌-◌, Option, length-drop, length-take, ◌≢◌, All, sym, true, nat_Eq, none, ltb, ◌==◌, drop, take,
  if◌then◌else◌, some, map, length, List, ℕ, arith, ◌≡◌, refl, ap, ◌∙◌, ◌<◌, ◌≤◌, ◌+◌,
}
use mathlib.Core.Path.{subst}
use lanscope.Kernel.{
  announce_new_host, try_lanscope, handle_ipv4, Maps, l4_header, u16_at, ipproto_udp, copy_len,
  written, eth_p_ip, emit, handle_l4, copied_payload, Kernel,
}
use lanscope.Kernel.Events.{to_copy-le, valid_payload-copied, take-to_copy, to_copy}
use lanscope.Base.Text.{Bytes}
use lanscope.Common.{MacAddr}
use lanscope.Kernel.Packet.{Ipv4, parse_ipv4, ethernet, udp_discovery_kind}
use lanscope.Decode.{decode_event, decode_kind}
use lanscope.Decode.Defs.{Observation, Signal}

from_u8-to_u8 : (kind : EventKind) → from_u8 (to_u8 kind) ≡ kind
unfolding from_u8 to_u8
from_u8-to_u8 new_host = refl
from_u8-to_u8 arp = refl
from_u8-to_u8 dhcp = refl
from_u8-to_u8 mdns = refl
from_u8-to_u8 ssdp = refl
from_u8-to_u8 tls_hello = refl
from_u8-to_u8 unknown = refl

-- What userspace makes of a payload from a host.
abbrev pub observations : MacAddr → ℕ → List Signal → List Observation
observations mac src_ip signals =
    map
      (λ signal. record {
        mac = mac;
        ip = if src_ip == 0 then none else some src_ip;
        signal = signal;
      })
      signals

module _ (k : Kernel) where
  open k use {load_bytes, reserve, submit}

  -- `bpf_xdp_load_bytes` copies bytes that lie in the packet.
  abbrev pub Copies : Type 0
  Copies =
      (packet : Bytes) (off n : ℕ)
      → 0 < n
      → off + n ≤ length packet
      → load_bytes packet off n ≡ some (take n (drop off packet))

  copied_payload_all :
      (packet : Bytes) (off : ℕ)
      → Copies
      → off < length packet
      → copied_payload k packet (some off) ≡ (to_copy k packet off, take copy_len (drop off packet))
  unfolding copied_payload
  copied_payload_all packet off copies inside =
      let n = to_copy k packet off in
      let within : ltb off (length packet) ≡ true = ground (arith, inside) in
      let loaded = copies packet off n (ground (arith, inside)) (ground (arith, inside)) in
      rw (within, loaded) (ap (λ b. (n, b)) (take-to_copy k packet off))

  pub emit_submits :
      (packet : Bytes) (ring : k.Ring) (slot : Bytes) (kind : EventKind) (mac : MacAddr)
      (src_ip : ℕ) (off : Option ℕ)
      → reserve ring ≡ some slot
      → emit k packet ring kind mac src_ip off
        ≡ submit ring (written k slot kind mac src_ip (copied_payload k packet off))
  unfolding emit
  emit_submits packet ring slot kind mac src_ip off room = rw (room, emit) refl

  to_copy_within : (packet : Bytes) (off : ℕ) → to_copy k packet off ≤ length packet - off
  to_copy_within packet off = ground arith

  length-payload :
      (packet : Bytes) (off : ℕ) → length (take copy_len (drop off packet)) ≡ to_copy k packet off
  length-payload packet off =
      ap length (sym (take-to_copy k packet off))
      ∙ omega (
        arith,
        length-take (to_copy k packet off) (drop off packet),
        length-drop off packet,
        to_copy_within packet off,
      )

  -- A frame of which the header states UDP between ports of a discovery protocol, with a payload.
  pub record IsDiscovery (packet : Bytes) (mac : MacAddr) (ip : Ipv4) (kind : EventKind)
      : Type 0 where
    pub framed : ethernet packet ≡ some (mac, eth_p_ip)
    pub parsed : parse_ipv4 packet ≡ some ip
    pub over_udp : ip.proto ≡ ipproto_udp
    pub ports :
        udp_discovery_kind
          (u16_at (take 8 (drop ip.l4 packet)) 0)
          (u16_at (take 8 (drop ip.l4 packet)) 2)
        ≡ some kind
    pub has_payload : ip.l4 + 8 < length packet

  module _ {packet : Bytes} {mac : MacAddr} {ip : Ipv4} {kind : EventKind} (copies : Copies)
      (found : IsDiscovery packet mac ip kind) where
    -- The event that is written into a slot.
    abbrev pub sent_event : Bytes → Event
    sent_event slot = written k slot kind mac ip.src_ip (copied_payload k packet (some (ip.l4 + 8)))

    header_read : l4_header k packet ip.l4 8 ≡ take 8 (drop ip.l4 packet)
    header_read =
        rw (copies packet ip.l4 8 (omega arith) (omega (arith, found.has_payload)), l4_header) refl

    ports_read :
        udp_discovery_kind
          (u16_at (l4_header k packet ip.l4 8) 0)
          (u16_at (l4_header k packet ip.l4 8) 2)
        ≡ some kind
    ports_read =
        subst (λ h. udp_discovery_kind (u16_at h 0) (u16_at h 2) ≡ some kind) (sym header_read)
          found.ports

    handle_l4-discovery :
        (ring : k.Ring) (slot : Bytes)
        → reserve ring ≡ some slot
        → (handle_l4 k packet ring mac ip).0 ≡ submit ring (sent_event slot)
    unfolding handle_l4
    handle_l4-discovery ring slot room =
        rw (found.over_udp, ports_read)
          (emit_submits packet ring slot kind mac ip.src_ip (some (ip.l4 + 8)) room)

    sent_event-decoded :
        (slot : Bytes)
        → decode_event (sent_event slot)
          ≡ observations mac ip.src_ip (decode_kind kind (take copy_len (drop (ip.l4 + 8) packet)))
    unfolding decode_event event_kind
    sent_event-decoded slot =
        let payload = take copy_len (drop (ip.l4 + 8) packet) in
        let all = copied_payload_all packet (ip.l4 + 8) copies found.has_payload in
        let whole = length-payload packet (ip.l4 + 8) in
        let read =
          valid_payload-copied k slot payload kind mac ip.src_ip (to_copy k packet (ip.l4 + 8))
            (to_copy-le k packet (ip.l4 + 8)) whole in
        rw (from_u8-to_u8 kind) (
          ap
            (λ c.
              observations mac ip.src_ip
                (decode_kind kind (valid_payload (written k slot kind mac ip.src_ip c))))
            all
          ∙ ap (λ bytes. observations mac ip.src_ip (decode_kind kind bytes)) read.1)

    handle_ipv4-discovery :
        (maps : Maps k) (now : ℕ) (slot : Bytes)
        → reserve maps.ring ≡ some slot
        → (handle_ipv4 k packet maps mac now).0.ring ≡ submit maps.ring (sent_event slot)
    unfolding handle_ipv4
    handle_ipv4-discovery maps now slot room =
        rw (found.parsed, handle_ipv4) (handle_l4-discovery maps.ring slot room)

    -- Where `bpf_xdp_load_bytes` copies bytes that lie in the packet, a frame states UDP between
    -- ports of a discovery protocol and has a payload, and the ring buffer has room after a new
    -- host is announced: the program submits one more event, and userspace decodes it to what the
    -- decoder of the protocol makes of the first 256 bytes of the payload, of the host that sent it.
    pub try_lanscope-decoded :
        (maps : Maps k) (now : ℕ) (slot : Bytes)
        → reserve (announce_new_host k packet maps mac).ring ≡ some slot
        → (ev : Event) × ((try_lanscope k packet maps now).0.ring
            ≡ submit (announce_new_host k packet maps mac).ring ev)
          × (decode_event ev
              ≡ observations mac ip.src_ip
                  (decode_kind kind (take copy_len (drop (ip.l4 + 8) packet))))
    unfolding try_lanscope
    try_lanscope-decoded maps now slot room = (
      sent_event slot,
      rw (found.framed, try_lanscope)
          (handle_ipv4-discovery (announce_new_host k packet maps mac) now slot room),
      sent_event-decoded slot,
    )

  -- Where `bpf_xdp_load_bytes` copies bytes that lie in the packet, a frame states UDP between ports of
  -- DHCP, and the ring buffer has room after a new host is announced; its payload is a DHCP message
  -- with a BOOTP header of 236 bytes, none of which is the first of the cookie: the program submits
  -- one more event, and of the options userspace decodes those that lie in the first 16 bytes, up to
  -- the first that does not, however many follow.
  pub try_lanscope-dhcp :
      {packet : Bytes} {mac : MacAddr} {ip : Ipv4} (maps : Maps k) (now : ℕ) (slot header : Bytes)
      (opts : List (ℕ × Bytes)) (rest : Bytes)
      → Copies
      → IsDiscovery packet mac ip dhcp
      → reserve (announce_new_host k packet maps mac).ring ≡ some slot
      → drop (ip.l4 + 8) packet ≡ message header opts rest
      → length header ≡ 236
      → All (λ c. c ≢ 0x63) header
      → All IsOption opts
      → (ev : Event) × ((try_lanscope k packet maps now).0.ring
          ≡ submit (announce_new_host k packet maps mac).ring ev)
        × (decode_event ev ≡ observations mac ip.src_ip (signals_of (fitting 16 opts)))
  unfolding decode_kind
  try_lanscope-dhcp {packet} {mac} {ip} maps now slot header opts rest copies found room payload
        bootp clean h =
      let (ev, sent, decoded) = try_lanscope-decoded copies found maps now slot room in
      let bound : copy_len ≡ length header + (4 + 16) = omega (arith, bootp) in
      let seen : take copy_len (drop (ip.l4 + 8) packet)
          ≡ take (length header + (4 + 16)) (message header opts rest) =
        ap (take copy_len) payload ∙ ap (λ n. take n (message header opts rest)) bound in
      (
        ev,
        sent,
        decoded
            ∙ ap (λ bytes. observations mac ip.src_ip (Dhcp.decode bytes)) seen
            ∙ ap (observations mac ip.src_ip) (decode-take header opts rest 16 clean h),
      )
