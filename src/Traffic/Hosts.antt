-- ===== src/Traffic/Hosts.antt =====
-- From the first frame of a host to the registry.
use lanscope.Common.Event.{to_u8, from_u8, event_kind, arp, new_host, EventKind, Event}
use lanscope.Registry.Lookup.{change_of}
use mathlib.Core.Path.{subst}
use lanscope.App.Emitted.{record_all}
use lanscope.Registry.{get_device}
use lanscope.App.Discovery.{first_stored, handle_observation_exact, observed_device}
use lanscope.App.{discovery, handle_observations, handle_event, Pipeline}
use lanscope.Storage.{Store}
use lanscope.Kernel.Packet.{udp_discovery_kind, parse_ipv4, ethernet, Ipv4}
use lanscope.Anomaly.Onnx.{Inference}
use lanscope.Decode.{decode_kind, decode_event}
use lanscope.Common.{zero_mac, MacAddr}
use lanscope.Base.Text.{Bytes}
use lanscope.Base.Float.{Floats}
use lanscope.Kernel.{
  l4_header, u16_at, eth_p_ip, ipproto_udp, eth_p_arp, ipproto_tcp, written, copied_payload, Maps,
  try_lanscope, handle_l4, handle_ipv4, emit, announce_new_host, Kernel,
}
use lanscope.Anomaly.Engine.{on_device}
use lanscope.Kernel.Discovery.{emit_submits}
use lanscope.Base.{
  ◌∷◌, nat_Eq, ◌+◌, some, ◌==◌, false, [], Option, ℕ, none, refl, ◌≡◌, sym, inl, inr, ◌⊎◌,
  Bool-cases, Option-cases, ◌≢◌,
}
use lanscope.Decode.Defs.{seen, Observation}

module _ (k : Kernel) where
  open k use {submit, reserve}

  -- The ring buffer, or that with one more event.
  abbrev pub Follows : k.Ring → k.Ring → Type 0
  Follows ring after = (after ≡ ring) ⊎ ((ev : Event) × (after ≡ submit ring ev))

  emit-Follows :
      (packet : Bytes) (ring : k.Ring) (kind : EventKind) (mac : MacAddr) (src_ip : ℕ)
      (off : Option ℕ)
      → Follows ring (emit k packet ring kind mac src_ip off)
  unfolding emit
  emit-Follows packet ring kind mac src_ip off = elim (Option-cases (reserve ring)) [
    | inl full ↦ rw (full, emit) (inl refl)
    | inr (slot, room) ↦ rw (room, emit) (inr (_, refl))
  ]

  sent_discovery-Follows :
      (packet : Bytes) (ring : k.Ring) (mac : MacAddr) (ip : Ipv4) (kind : Option EventKind)
      → Follows ring (elim kind [
        | none ↦ ring
        | some found ↦ emit k packet ring found mac ip.src_ip (some (ip.l4 + 8))
      ])
  sent_discovery-Follows packet ring mac ip none = inl refl
  sent_discovery-Follows packet ring mac ip (some kind) =
      emit-Follows packet ring kind mac ip.src_ip (some (ip.l4 + 8))

  handle_l4-Follows :
      (packet : Bytes) (ring : k.Ring) (mac : MacAddr) (ip : Ipv4)
      → Follows ring (handle_l4 k packet ring mac ip).0
  unfolding handle_l4
  handle_l4-Follows packet ring mac ip = elim (Bool-cases (ip.proto == ipproto_tcp)) [
    | inl tcp ↦ rw tcp (inl refl)
    | inr not_tcp ↦ elim (Bool-cases (ip.proto == ipproto_udp)) [
      | inl udp ↦
          rw (not_tcp, udp)
            (sent_discovery-Follows packet ring mac ip (
              udp_discovery_kind (u16_at (l4_header k packet ip.l4 8) 0)
                (u16_at (l4_header k packet ip.l4 8) 2)))
      | inr neither ↦ rw (not_tcp, neither) (inl refl)
    ]
  ]

  handle_ipv4-Follows :
      (packet : Bytes) (maps : Maps k) (mac : MacAddr) (now : ℕ)
      → Follows maps.ring (handle_ipv4 k packet maps mac now).0.ring
  unfolding handle_ipv4
  handle_ipv4-Follows packet maps mac now = elim (Option-cases (parse_ipv4 packet)) [
    | inl bad ↦ rw (bad, handle_ipv4) (inl refl)
    | inr (ip, good) ↦ rw (good, handle_ipv4) (handle_l4-Follows packet maps.ring mac ip)
  ]

  -- After a new host is announced the program sends one event at most.
  try_lanscope-Follows :
      (packet : Bytes) (maps : Maps k) (mac : MacAddr) (ethertype now : ℕ)
      → ethernet packet ≡ some (mac, ethertype)
      → Follows (announce_new_host k packet maps mac).ring (try_lanscope k packet maps now).0.ring
  unfolding try_lanscope
  try_lanscope-Follows packet maps mac ethertype now read =
      let announced = announce_new_host k packet maps mac in
      elim (Bool-cases (ethertype == eth_p_arp)) [
        | inl is_arp ↦
            rw (read, try_lanscope, is_arp) (emit-Follows packet announced.ring arp mac 0 none)
        | inr not_arp ↦ elim (Bool-cases (ethertype == eth_p_ip)) [
          | inl is_ip ↦
              rw (read, try_lanscope, not_arp, is_ip) (handle_ipv4-Follows packet announced mac now)
          | inr other ↦ rw (read, try_lanscope, not_arp, other) (inl refl)
        ]
      ]

  -- The event that announces a host.
  abbrev pub announcement : Bytes → MacAddr → Event
  announcement slot mac = written k slot new_host mac 0 (0, [])

  announce_new_host-sends :
      (packet : Bytes) (maps : Maps k) (mac : MacAddr) (slot : Bytes)
      → (k.seen_get maps.seen mac).1 ≡ false
      → reserve maps.ring ≡ some slot
      → (announce_new_host k packet maps mac).ring ≡ submit maps.ring (announcement slot mac)
  unfolding announce_new_host copied_payload
  announce_new_host-sends packet maps mac slot new room =
      rw new (emit_submits k packet maps.ring slot new_host mac 0 none room)

  -- That a host is there, with nothing more.
  abbrev pub sighting : MacAddr → Observation
  sighting mac = record { mac = mac; ip = none; signal = seen }

  announcement-decoded :
      (slot : Bytes) (mac : MacAddr) → decode_event (announcement slot mac) ≡ sighting mac ∷ []
  unfolding decode_event event_kind from_u8 to_u8 decode_kind
  announcement-decoded slot mac = refl

  module _ (fl : Floats) (inf : Inference fl) (st : Store) where
    -- The device is in the registry, with what was known of it, and it is in the store at once if
    -- nothing was.
    abbrev pub IsRegistered : Pipeline fl inf st → MacAddr → ℕ → Pipeline fl inf st → Type 0
    IsRegistered p mac now q =
        let d = observed_device fl inf st p.registry (sighting mac) now in
        (get_device q.registry mac ≡ some d)
        × (q.stored
            ≡ record_all fl inf st (first_stored fl inf st p.stored (get_device p.registry mac) d)
                (on_device fl inf p.anomaly d (change_of (get_device p.registry mac)) now))

    handle_event-announcement :
        (p : Pipeline fl inf st) (slot : Bytes) (mac : MacAddr) (now : ℕ)
        → mac ≢ zero_mac
        → IsRegistered p mac now
            (handle_event fl inf st p (discovery (announcement slot mac)) now).0
    unfolding handle_event handle_observations
    handle_event-announcement p slot mac now h =
        let (there, stored, count) = handle_observation_exact fl inf st p (sighting mac) now h in
        subst (λ obs. IsRegistered p mac now (handle_observations fl inf st p obs now).0)
          (sym (announcement-decoded slot mac)) (there, stored)

    -- The first frame of a host that the program sees, whatever it carries, with a source address
    -- that is not zero and where the ring buffer has room: the program announces the host, and sends
    -- one event more at most; and whatever the loop knows when it handles the announcement, the host
    -- is then in the registry, and in the store at once if it was unknown.
    pub try_lanscope-IsRegistered :
        (packet slot : Bytes) (maps : Maps k) (mac : MacAddr) (ethertype now : ℕ)
        → ethernet packet ≡ some (mac, ethertype)
        → mac ≢ zero_mac
        → (k.seen_get maps.seen mac).1 ≡ false
        → reserve maps.ring ≡ some slot
        → (ev : Event) × Follows (submit maps.ring ev) (try_lanscope k packet maps now).0.ring
          × ((p : Pipeline fl inf st) (later : ℕ)
              → IsRegistered p mac later (handle_event fl inf st p (discovery ev) later).0)
    try_lanscope-IsRegistered packet slot maps mac ethertype now read there new room = (
      announcement slot mac,
      subst (λ ring. Follows ring (try_lanscope k packet maps now).0.ring)
          (announce_new_host-sends packet maps mac slot new room)
          (try_lanscope-Follows packet maps mac ethertype now read),
      λ p later. handle_event-announcement p slot mac later there,
    )
