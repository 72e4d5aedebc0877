-- ===== src/Kernel.antt =====
-- lanscope-ebpf/src/main.rs: the XDP program. The maps, the ring buffer and the helpers of the
-- kernel are a parameter; the memory of a slot before it is written is part of it.
pub mod Packet
pub mod Counters
pub mod Flows
pub mod Events
pub mod Wire
pub mod Table
pub mod Frames
pub mod Discovery
use lanscope.Common.Flow.{flow_key, FlowStats, FlowKey}
use lanscope.Kernel.Packet.{Ipv4, udp_discovery_kind, parse_ipv4, ethernet}
use lanscope.Kernel.Counters.{first_packet, add_packet}
use lanscope.Common.{MacAddr}
use lanscope.Base.Text.{Bytes}
use lanscope.Base.{
  drop, ◌++◌, ltb, ◌^◌, ◌-◌, true, nat_Eq, ◌+◌, ◌%◌, length, ◌==◌, ◌*◌, some, replicate, false, [],
  none, if◌then◌else◌, get_or, Option, Bool, ℕ,
}
use lanscope.Common.Event.{arp, new_host, Event, EventKind, to_u8}

abbrev pub eth_p_ip : ℕ
eth_p_ip = 0x0800

abbrev pub eth_p_arp : ℕ
eth_p_arp = 0x0806

abbrev pub ipproto_tcp : ℕ
ipproto_tcp = 6

abbrev pub ipproto_udp : ℕ
ipproto_udp = 17

abbrev pub copy_len : ℕ
copy_len = 256

-- The maps: `SEEN` is a map that evicts the least recently used entry, `FLOWS` a hash map of which an
-- insertion fails where it is full, `EVENTS` a ring buffer that may be full. `time` is `bpf_ktime_get_ns`, `load_bytes` is `bpf_xdp_load_bytes`, whose result is
-- the bytes that were copied, or none where it fails.
pub record Kernel : Type 1 where
  pub Seen : Type 0
  pub seen_get : Seen → MacAddr → Seen × Bool
  pub seen_insert : Seen → MacAddr → Seen
  pub Flows : Type 0
  pub flows_get : Flows → FlowKey → Option FlowStats
  pub flows_insert : Flows → FlowKey → FlowStats → Flows
  pub flows_write : Flows → FlowKey → FlowStats → Flows
  pub Ring : Type 0
  pub reserve : Ring → Option Bytes
  pub submit : Ring → Event → Ring
  pub load_bytes : Bytes → ℕ → ℕ → Option Bytes

-- The header that `bpf_xdp_load_bytes` copies onto the stack, or the zeros that stand there.
abbrev pub u16_at : Bytes → ℕ → ℕ
u16_at hdr i = get_or hdr i 0 * 256 + get_or hdr (i + 1) 0

pub data XdpAction : Type 0 where
  xdp_aborted xdp_drop xdp_pass xdp_tx xdp_redirect : XdpAction

module _ (k : Kernel) where
  open k use {
    Seen, seen_get, seen_insert, Flows, flows_get, flows_insert, flows_write, Ring, reserve, submit,
    load_bytes,
  }

  pub record Maps : Type 0 where
    pub seen : Seen
    pub flows : Flows
    pub ring : Ring

  unfoldable pub update_flow : Flows → FlowKey → ℕ → ℕ → ℕ → Flows
  unfolding add_packet first_packet
  update_flow flows key pkt_len tcp_flags now = elim (flows_get flows key) [
    | some stats ↦ flows_write flows key (add_packet stats pkt_len tcp_flags now)
    | none ↦ flows_insert flows key (first_packet pkt_len tcp_flags now)
  ]

  -- How many bytes are copied into the slot, and which.
  unfoldable pub copied_payload : Bytes → Option ℕ → ℕ × Bytes
  copied_payload packet none = (0, [])
  copied_payload packet (some off) =
      let avail = length packet - off in
      let to_copy = if ltb copy_len avail then copy_len else avail in
      let copied : ℕ × Bytes = elim (load_bytes packet off to_copy) [
        | none ↦ (0, [])
        | some bytes ↦ (to_copy, bytes)
      ] in
      if ltb off (length packet) then copied else (0, [])

  -- The event that is written into a slot, which keeps what it held behind the bytes copied.
  abbrev pub written : Bytes → EventKind → MacAddr → ℕ → ℕ × Bytes → Event
  written slot kind mac src_ip (copied, bytes) = record {
    kind = to_u8 kind;
    payload_len = copied % 2 ^ 16;
    src_ip = src_ip;
    src_mac = mac;
    payload = bytes ++ drop (length bytes) slot;
  }

  unfoldable pub emit : Bytes → Ring → EventKind → MacAddr → ℕ → Option ℕ → Ring
  unfolding copied_payload
  emit packet ring kind mac src_ip payload_off = elim (reserve ring) [
    | none ↦ ring
    | some slot ↦ submit ring (written slot kind mac src_ip (copied_payload packet payload_off))
  ]

  unfoldable pub announce_new_host : Bytes → Maps → MacAddr → Maps
  unfolding emit
  announce_new_host packet maps mac =
      let (seen, found) = seen_get maps.seen mac in
      if found then record maps { seen = seen } else record maps {
        seen = seen_insert seen mac;
        ring = emit packet maps.ring new_host mac 0 none;
      }

  -- The header at `off`, or the zeros that the buffer holds where it cannot be copied
  abbrev pub l4_header : Bytes → ℕ → ℕ → Bytes
  l4_header packet off n = elim (load_bytes packet off n) [ none ↦ replicate n 0 | some hdr ↦ hdr ]

  -- `match proto { … }`: the event that is sent, with the ports and the flags
  unfoldable pub handle_l4 : Bytes → Ring → MacAddr → Ipv4 → Ring × ℕ × ℕ × ℕ
  unfolding emit udp_discovery_kind
  handle_l4 packet ring src_mac ip =
      if ip.proto == ipproto_tcp
      then (let hdr = l4_header packet ip.l4 16 in
          (ring, u16_at hdr 0, u16_at hdr 2, get_or hdr 13 0))
      else if ip.proto == ipproto_udp
      then (let hdr = l4_header packet ip.l4 8 in
          let ring' : Ring = elim (udp_discovery_kind (u16_at hdr 0) (u16_at hdr 2)) [
            | none ↦ ring
            | some kind ↦ emit packet ring kind src_mac ip.src_ip (some (ip.l4 + 8))
          ] in
          (ring', u16_at hdr 0, u16_at hdr 2, 0))
      else (ring, 0, 0, 0)

  -- `Err` leaves the maps as they are; the flag says whether it is `Ok`.
  unfoldable pub handle_ipv4 : Bytes → Maps → MacAddr → ℕ → Maps × Bool
  unfolding handle_l4 update_flow parse_ipv4
  handle_ipv4 packet maps src_mac now = elim (parse_ipv4 packet) [
    | none ↦ (maps, false)
    | some ip ↦
        let (ring, src_port, dst_port, tcp_flags) = handle_l4 packet maps.ring src_mac ip in
        (
          record maps {
            ring = ring;
            flows =
                update_flow maps.flows (flow_key ip.src_ip ip.dst_ip src_port dst_port ip.proto)
                  ip.total_len tcp_flags now;
          },
          true,
        )
  ]

  unfoldable pub try_lanscope : Bytes → Maps → ℕ → Maps × Bool
  unfolding announce_new_host handle_ipv4 ethernet
  try_lanscope packet maps now = elim (ethernet packet) [
    | none ↦ (maps, false)
    | some (src_mac, ethertype) ↦
        let announced = announce_new_host packet maps src_mac in
        if ethertype == eth_p_arp
        then (record announced { ring = emit packet announced.ring arp src_mac 0 none }, true)
        else if ethertype == eth_p_ip
        then handle_ipv4 packet announced src_mac now
        else (announced, true)
  ]

  -- `lanscope`: what the program returns, with the maps it leaves.
  unfoldable pub lanscope_xdp : Bytes → Maps → ℕ → Maps × XdpAction
  unfolding try_lanscope
  lanscope_xdp packet maps now = ((try_lanscope packet maps now).0, xdp_pass)
