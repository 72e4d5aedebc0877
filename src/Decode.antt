-- ===== src/Decode.antt =====
-- lanscope/src/decode/mod.rs: decoders of capture events.
pub mod Defs
pub mod Dhcp
pub mod Dns
pub mod Mdns
pub mod Ssdp
use lanscope.Base.Text.{Bytes}
use lanscope.Base.{nat_Eq, some, none, ◌==◌, if◌then◌else◌, [], ◌∷◌, ℕ, map, Option, List}
use lanscope.Common.Event.{
  Event, new_host, arp, dhcp, mdns, ssdp, tls_hello, unknown, EventKind, event_kind, valid_payload,
}
use lanscope.Decode.Defs.{Signal, Observation, seen}
use lanscope.Decode.Dhcp
use lanscope.Decode.Mdns
use lanscope.Decode.Ssdp

-- The `match` on the kind of the event.
unfoldable pub decode_kind : EventKind → Bytes → List Signal
decode_kind dhcp payload = Dhcp.decode payload
decode_kind mdns payload = Mdns.decode payload
decode_kind ssdp payload = Ssdp.decode payload
decode_kind arp payload = seen ∷ []
decode_kind new_host payload = seen ∷ []
decode_kind tls_hello payload = seen ∷ []
decode_kind unknown payload = seen ∷ []

-- `(ev.src_ip != 0).then_some(ev.src_ip)`
abbrev pub source_ip : Event → Option ℕ
source_ip ev = if ev.src_ip == 0 then none else some ev.src_ip

unfoldable pub decode_event : Event → List Observation
unfolding decode_kind event_kind valid_payload
decode_event ev =
    map (λ signal. record { mac = ev.src_mac; ip = source_ip ev; signal = signal })
      (decode_kind (event_kind ev) (valid_payload ev))
