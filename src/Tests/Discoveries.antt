-- ===== src/Tests/Discoveries.antt =====
-- The discovery packets.
use lanscope.Tests.Tables.{length_prefixed}
use lanscope.Storage.Sqlite.{sqlite_store}
use lanscope.App.{discovery, handle_event, Pipeline}
use lanscope.Traffic.Hosts.{Follows, IsRegistered, try_lanscope-IsRegistered}
use lanscope.Decode.{decode_kind, decode_event}
use lanscope.Decode.Dhcp.RoundTrip.{signals_of, message}
use lanscope.Tests.Samples.{no_inference, whole_numbers, laptop_mac}
use lanscope.Tests.Packets.{no_maps, roomy}
use lanscope.Kernel.{eth_p_ip, copy_len, announce_new_host, try_lanscope}
use lanscope.Kernel.Packet.{
  load_u32_be, load_u16_be, load_u8, load_mac, udp_discovery_kind, parse_ipv4, ethernet, Ipv4,
}
use lanscope.Kernel.Discovery.{
  try_lanscope-decoded, try_lanscope-dhcp, IsDiscovery, observations, Copies,
}
use lanscope.Decode.Dhcp.Truncated.{fitting}
use lanscope.Base.Text.{codes, Bytes}
use lanscope.Base.{
  length-drop, length-take, true, drop, take, length, ◌++◌, nat_eq, ◌≡◌, ℕ, replicate, List, arith,
  refl, ◌∷◌, [],
}
use lanscope.Common.Event.{event_payload_len, Event, dhcp}

roomy-Copies : Copies roomy
roomy-Copies packet off n some_bytes inside =
    let whole : nat_eq (length (take n (drop off packet))) n ≡ true =
      ground (arith, length-take n (drop off packet), length-drop off packet, inside) in
    rw whole refl

-- A DHCP discover of a laptop: its message type, its client identifier, its host name.
abbrev client_id : Bytes
client_id = 1 ∷ laptop_mac

abbrev dhcp_opts : List (ℕ × Bytes)
dhcp_opts = (53, 1 ∷ []) ∷ (61, client_id) ∷ (12, codes "laptop") ∷ []

abbrev bootp_header : Bytes
bootp_header = replicate 236 0

abbrev ip_header : Bytes
ip_header = 0x45 ∷ 0 ∷ 1 ∷ 0x22 ∷ replicate 5 0 ++ 17 ∷ 0 ∷ 0 ∷ 192 ∷ 168 ∷ 1 ∷ 2 ∷ replicate 4 255

abbrev dhcp_frame : Bytes
dhcp_frame =
    replicate 6 255
    ++ laptop_mac
    ++ 8 ∷ 0 ∷ ip_header
    ++ 0 ∷ 68 ∷ 0 ∷ 67 ∷ 1 ∷ 14 ∷ 0 ∷ 0 ∷ message bootp_header dhcp_opts []

abbrev laptop_ip : Ipv4
laptop_ip = record {
  l4 = 34;
  total_len = 0x122;
  proto = 17;
  src_ip = 0xc0a80102;
  dst_ip = 0xffffffff;
}

dhcp_frame-IsDiscovery : IsDiscovery roomy dhcp_frame laptop_mac laptop_ip dhcp
unfolding ethernet parse_ipv4 udp_discovery_kind load_mac load_u8 load_u16_be load_u32_be
dhcp_frame-IsDiscovery = record {
  framed = refl;
  parsed = refl;
  over_udp = refl;
  ports = refl;
  has_payload = omega arith;
}

try_lanscope-dhcp_example :
    (ev : Event) × ((try_lanscope roomy dhcp_frame no_maps 9).0.ring
      ≡ ev ∷ (announce_new_host roomy dhcp_frame no_maps laptop_mac).ring)
    × (decode_event ev ≡ observations laptop_mac 0xc0a80102 (signals_of (fitting 16 dhcp_opts)))
try_lanscope-dhcp_example =
    try_lanscope-dhcp roomy no_maps 9 (replicate event_payload_len 0) bootp_header dhcp_opts []
      roomy-Copies dhcp_frame-IsDiscovery refl refl refl (ground arith) (ground arith)

try_lanscope-decoded_example :
    (ev : Event) × ((try_lanscope roomy dhcp_frame no_maps 9).0.ring
      ≡ ev ∷ (announce_new_host roomy dhcp_frame no_maps laptop_mac).ring)
    × (decode_event ev
        ≡ observations laptop_mac 0xc0a80102
            (decode_kind dhcp (take copy_len (drop 42 dhcp_frame))))
try_lanscope-decoded_example =
    try_lanscope-decoded roomy roomy-Copies dhcp_frame-IsDiscovery no_maps 9
      (replicate event_payload_len 0) refl

-- The host name is not among what userspace sees.
no_hostname : fitting 16 dhcp_opts ≡ (53, 1 ∷ []) ∷ (61, client_id) ∷ []
no_hostname = refl

try_lanscope-IsRegistered_example :
    (ev : Event) × Follows roomy (ev ∷ []) (try_lanscope roomy dhcp_frame no_maps 9).0.ring
    × ((p : Pipeline whole_numbers no_inference (sqlite_store length_prefixed)) (later : ℕ)
        → IsRegistered roomy whole_numbers no_inference
            (sqlite_store length_prefixed)
            p
            laptop_mac
            later
            (handle_event whole_numbers no_inference
              (sqlite_store length_prefixed)
              p
              (discovery ev)
              later).0)
try_lanscope-IsRegistered_example =
    try_lanscope-IsRegistered roomy whole_numbers no_inference (sqlite_store length_prefixed)
      dhcp_frame (replicate event_payload_len 0) no_maps laptop_mac eth_p_ip 9
      dhcp_frame-IsDiscovery.framed (ground arith) refl refl
