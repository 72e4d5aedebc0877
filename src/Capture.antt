-- ===== src/Capture.antt =====
-- lanscope/src/capture/mock.rs: the synthetic frames and flows of the portable backend.
pub mod Synthetic
pub mod Ebpf
pub mod Portable
pub mod Select
use lanscope.Common.Flow.{no_stats, flow_key, FlowStats, FlowKey}
use lanscope.Common.{MacAddr}
use lanscope.Base.Text.{codes, Bytes}
use lanscope.Base.{◌-◌, take, ◌^◌, ◌%◌, ◌++◌, min, length, ◌∷◌, ℕ, replicate, [], List}
use lanscope.Common.Event.{
  default_event, event_payload_len, Event, EventKind, new_host, mdns, dhcp, ssdp, to_u8,
}

-- `ev.payload[..n].copy_from_slice(&payload[..n])`, into a payload of zeros
unfoldable pub event : EventKind → MacAddr → ℕ → Bytes → Event
event kind mac src_ip payload =
    let n = min (length payload) event_payload_len in
    record default_event {
      kind = to_u8 kind;
      src_mac = mac;
      src_ip = src_ip;
      payload_len = length payload % 2 ^ 16;
      payload = take n payload ++ replicate (event_payload_len - n) 0;
    }

-- `l.len() as u8`
unfoldable pub dns_name : List Bytes → Bytes
dns_name [] = 0 ∷ []
dns_name (l ∷ labels) = length l % 256 ∷ (l ++ dns_name labels)

unfoldable pub mdns_packet : Bytes
unfolding dns_name
mdns_packet =
    replicate 12 0
    ++ (dns_name (codes "_raspberrypi" ∷ codes "_tcp" ∷ codes "local" ∷ [])
        ++ dns_name (codes "livingroom-pi" ∷ codes "local" ∷ []))

unfoldable pub dhcp_packet : Bytes → Bytes → Bytes → Bytes
dhcp_packet hostname prl vendor =
    replicate 8 0
    ++ ((0x63 ∷ 0x82 ∷ 0x53 ∷ 0x63 ∷ [])
        ++ (12
            ∷ length hostname % 256
            ∷ (hostname
                ++ (55
                    ∷ length prl % 256
                    ∷ (prl ++ (60 ∷ length vendor % 256 ∷ (vendor ++ (255 ∷ []))))))))

abbrev pub pi_mac : MacAddr
pi_mac = 0xb8 ∷ 0x27 ∷ 0xeb ∷ 0x01 ∷ 0x02 ∷ 0x03 ∷ []

abbrev pub echo_mac : MacAddr
echo_mac = 0x44 ∷ 0x65 ∷ 0x0d ∷ 0xaa ∷ 0xbb ∷ 0xcc ∷ []

unfoldable pub sample_events : List Event
unfolding event mdns_packet dhcp_packet
sample_events =
    event new_host pi_mac 0x0a000042 []
    ∷ event mdns pi_mac 0x0a000042 mdns_packet
    ∷ event dhcp pi_mac 0x0a000042
        (dhcp_packet (codes "livingroom-pi") (1 ∷ 3 ∷ 6 ∷ 15 ∷ 26 ∷ 28 ∷ 51 ∷ 58 ∷ []) [])
    ∷ event new_host echo_mac 0x0a000050 []
    ∷ event ssdp echo_mac 0x0a000050 (
        codes
          "NOTIFY * HTTP/1.1\r\nSERVER: Linux UPnP/1.0 AmazonEcho/1.0\r\nST: urn:schemas-upnp-org:device:basic:1\r\n\r\n")
    ∷ []

unfoldable pub sample_flows : List (FlowKey × FlowStats)
sample_flows =
    (
      flow_key 0x0a000042 0x08080808 51514 443 6,
      record no_stats {
        packets = 42;
        bytes = 5120;
        first_seen_ns = 1000000000;
        last_seen_ns = 3000000000;
        syn = 1;
        ack = 40;
        min_len = 60;
        max_len = 1500;
      },
    )
    ∷ []
