-- ===== src/Registry/Flows.antt =====
-- Flow snapshots: to which device the traffic of a flow goes.
use mathlib.Core.Path.{subst}
use mathlib.Core.Option.{some-injective}
use lanscope.Base.Distinct.{Distinct}
use lanscope.Registry.Keys.{keys_of, get-none_of_fresh}
use lanscope.Netfmt.{fmt_ipv4}
use lanscope.Common.Flow.{FlowStats, FlowKey}
use lanscope.Common.{MacAddr}
use lanscope.Base.Dict.{get, Dict}
use lanscope.Base.Text.{Bytes}
use lanscope.Base.{
  Option, none, ◌∙◌, sym, ap, ==_iff, inr, ◌==◌, Bool-cases, refl, inl, true, nat_Eq, list_Eq, some,
  ◌⊎◌, contains, [], ◌∷◌, arith, if◌then◌else◌, ◌≡◌, false, ℕ,
}
use lanscope.Registry.{
  saturating_add, get_device, Device, DeviceRegistry, apply_flow, attribute, add_traffic,
}

abbrev pub DeviceMap : Type 0
DeviceMap = MacAddr → Option Device

-- The map with another device under a MAC address.
abbrev pub put : MacAddr → Device → DeviceMap → DeviceMap
put mac d s = λ m. if mac == m then some d else s m

attribute-put :
    (ip : Bytes) (f : Device → Device) (devices : Dict MacAddr Device)
    → Distinct (keys_of devices)
    → (((m : MacAddr) (d : Device) → get m devices ≡ some d → contains d.ips ip ≡ false)
        × (attribute ip f devices ≡ devices))
      ⊎ ((mac : MacAddr) × (d : Device) × (get mac devices ≡ some d)
          × (contains d.ips ip ≡ true)
          × ((m : MacAddr) → get m (attribute ip f devices) ≡ put mac (f d) (λ n. get n devices) m))
unfolding attribute get
attribute-put ip f [] u = inl (λ m d h. cc, refl)
attribute-put ip f ((k, e) ∷ devices) (fresh, us) = elim (Bool-cases (contains e.ips ip)) [
  | inl mine ↦ inr (
    k,
    e,
    rw ((==_iff k k).1 refl) refl,
    mine,
    λ m. elim (Bool-cases (k == m)) [
      | inl same ↦ rw (mine, get) (rw same refl)
      | inr other ↦ rw (mine, get) (rw other refl)
    ],
  )
  | inr foreign ↦ elim (attribute-put ip f devices us) [
    | inl (unowned, same_list) ↦ inl (
      λ m d h. elim (Bool-cases (k == m)) [
        | inl same ↦
            let eq : e ≡ d = some-injective e d (rw same at h) in
            subst (λ x. contains x.ips ip ≡ false) eq foreign
        | inr other ↦ unowned m d (rw other at h)
      ],
      rw foreign (ap (λ rest. (k, e) ∷ rest) same_list),
    )
    | inr (mac, d, found, has, at) ↦
        let apart : k == mac ≡ false = elim (Bool-cases (k == mac)) [
          | inl same ↦ absurd (
              none_some d (
                sym (get-none_of_fresh k devices fresh)
                ∙ subst (λ n. get n devices ≡ some d) (sym ((==_iff k mac).0 same)) found))
          | inr other ↦ other
        ] in
        inr (
          mac,
          d,
          rw apart found,
          has,
          λ m. elim (Bool-cases (k == m)) [
            | inl same ↦
                let elsewhere : mac == m ≡ false =
                  ground (arith, apart, same, ==_iff k m, ==_iff k mac, ==_iff mac m) in
                rw (foreign, get) (rw (same, elsewhere) refl)
            | inr other ↦ rw (foreign, get) (rw other (at m))
          ],
        )
  ]
]
  where
    none_some : (x : Device) → none ≡ some x → ⊥
    none_some x eq = cc

-- Where no MAC address is listed twice: if no device lists the source address of a flow, the registry
-- stays; otherwise one device that lists it, and no other, gets the packets and the bytes, in counters
-- that stop at the largest 64-bit number, and the time of the flow.
pub apply_flow_exact :
    (reg : DeviceRegistry) (key : FlowKey) (stats : FlowStats) (now : ℕ)
    → Distinct (keys_of reg.devices)
    → (((m : MacAddr) (d : Device)
          → get_device reg m ≡ some d
          → contains d.ips (fmt_ipv4 key.src_ip) ≡ false)
        × (apply_flow reg key stats now ≡ reg))
      ⊎ ((mac : MacAddr) × (d : Device) × (get_device reg mac ≡ some d)
          × (contains d.ips (fmt_ipv4 key.src_ip) ≡ true)
          × ((m : MacAddr)
              → get_device (apply_flow reg key stats now) m ≡ (
                  if mac == m
                  then some (record d {
                    packets = saturating_add d.packets stats.packets;
                    bytes = saturating_add d.bytes stats.bytes;
                    last_seen = now;
                  })
                  else get_device reg m)))
unfolding apply_flow get_device add_traffic
apply_flow_exact reg key stats now u =
    elim (attribute-put (fmt_ipv4 key.src_ip) (add_traffic stats now) reg.devices u) [
      | inl (unowned, same) ↦ inl (unowned, ap (λ ds. record { devices = ds }) same)
      | inr (mac, d, found, has, at) ↦ inr (mac, d, found, has, at)
    ]

-- The devices that an attribution leaves alone, and the one that it changes.
attribute-get :
    (ip : Bytes) (f : Device → Device) (devices : Dict MacAddr Device) (mac : MacAddr)
    → (get mac (attribute ip f devices) ≡ get mac devices)
      ⊎ ((dev : Device) × (get mac devices ≡ some dev)
          × (contains dev.ips ip ≡ true)
          × (get mac (attribute ip f devices) ≡ some (f dev)))
unfolding attribute get
attribute-get ip f [] mac = inl refl
attribute-get ip f ((m, dev) ∷ devices) mac = elim (Bool-cases (contains dev.ips ip)) [
  | inl mine ↦ elim (Bool-cases (m == mac)) [
    | inl same ↦ inr (dev, rw same, mine, rw (mine, get) (rw same))
    | inr other ↦ inl (rw (mine, get) (rw other))
  ]
  | inr foreign ↦ elim (Bool-cases (m == mac)) [
    | inl same ↦ inl (rw (foreign, get) (rw same))
    | inr other ↦ rw (foreign, get) (rw other (attribute-get ip f devices mac))
  ]
]

-- A flow changes no device but one that has its source address; that one gets the traffic, with
-- counters that stop at the largest 64-bit number, and the time.
pub apply_flow-lookup :
    (reg : DeviceRegistry) (key : FlowKey) (stats : FlowStats) (now : ℕ) (mac : MacAddr)
    → (get_device (apply_flow reg key stats now) mac ≡ get_device reg mac)
      ⊎ ((dev : Device) × (get_device reg mac ≡ some dev)
          × (contains dev.ips (fmt_ipv4 key.src_ip) ≡ true)
          × (get_device (apply_flow reg key stats now) mac
              ≡ some (record dev {
                packets = saturating_add dev.packets stats.packets;
                bytes = saturating_add dev.bytes stats.bytes;
                last_seen = now;
              })))
unfolding apply_flow get_device add_traffic
apply_flow-lookup reg key stats now mac =
    attribute-get (fmt_ipv4 key.src_ip) (add_traffic stats now) reg.devices mac
