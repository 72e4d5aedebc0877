-- ===== src/Registry/Invariant.antt =====
-- The invariant of the registry.
use lanscope.Common.Flow.{FlowStats, FlowKey}
use lanscope.Base.Text.{Bytes}
use lanscope.Registry.Ips.{push_ip-Distinct}
use lanscope.Base.Distinct.{Distinct-concat, Distinct}
use lanscope.Netfmt.{fmt_ipv4, fmt_mac}
use lanscope.Decode.Defs.{
  Observation, seen, dhcp_vendor_class, dhcp_fingerprint, service, hostname, Signal,
}
use lanscope.Base.{
  Option-cases, ltb→lt, length-append, [], ◌∷◌, ◌++◌, ltb, none, inr, some, inl, contains, Option,
  Bool-cases, refl, nat_Eq, list_Eq, ◌≤◌, length, arith, ◌≡◌, ℕ,
}
use lanscope.Common.{MacAddr}
use lanscope.Base.Dict.{Entries-get, get, Entries-modify, Dict, Entries-insert, Entries}
use lanscope.Registry.{
  set_device_type, observe, load, attribute, apply_flow, add_traffic, push_ip, u64_max,
  max_services, apply_signal, Device, DeviceRegistry, new_device, fold_observation, push_observed,
}

pub record IsValidDevice (mac : MacAddr) (dev : Device) : Type 0 where
  pub named : dev.mac ≡ fmt_mac mac
  pub few_services : length dev.services ≤ max_services
  pub distinct_services : Distinct dev.services
  pub distinct_ips : Distinct dev.ips
  pub packets_fit : dev.packets ≤ u64_max
  pub bytes_fit : dev.bytes ≤ u64_max

-- Every device is valid for its key.
abbrev pub IsValid : DeviceRegistry → Type 0
IsValid reg = Entries IsValidDevice reg.devices

pub new_device-IsValid : (mac : MacAddr) (now : ℕ) → IsValidDevice mac (new_device mac now)
unfolding new_device
new_device-IsValid mac now = record {
  named = refl;
  few_services = omega arith;
  distinct_services = tt;
  distinct_ips = tt;
  packets_fit = omega arith;
  bytes_fit = omega arith;
}

apply_signal-IsValid :
    (mac : MacAddr) (dev : Device) (signal : Signal)
    → IsValidDevice mac dev
    → IsValidDevice mac (apply_signal dev signal)
unfolding apply_signal
apply_signal-IsValid mac dev (hostname h) v = assumption
apply_signal-IsValid mac dev (service s) v = elim (Bool-cases (contains dev.services s)) [
  | inl old ↦ rw old v
  | inr new ↦ elim (Bool-cases (ltb (length dev.services) max_services)) [
    | inl room ↦
        let bound : length (dev.services ++ s ∷ []) ≤ max_services = omega (
          arith,
          length-append dev.services (s ∷ []),
          ltb→lt (length dev.services) max_services room,
        ) in
        rw (new, room)
          (record {
            named = v.named;
            few_services = bound;
            distinct_services = Distinct-concat dev.services s new v.distinct_services;
            distinct_ips = v.distinct_ips;
            packets_fit = v.packets_fit;
            bytes_fit = v.bytes_fit;
          })
    | inr full ↦ rw (new, full) v
  ]
]
apply_signal-IsValid mac dev (dhcp_fingerprint f) v = assumption
apply_signal-IsValid mac dev (dhcp_vendor_class c) v = assumption
apply_signal-IsValid mac dev seen v = v

push_ip-IsValid :
    (mac : MacAddr) (dev : Device) (ip : ℕ)
    → IsValidDevice mac dev
    → IsValidDevice mac (push_ip dev ip)
push_ip-IsValid mac dev ip v = record {
  named = unfold push_ip in v.named;
  few_services = unfold push_ip in v.few_services;
  distinct_services = unfold push_ip in v.distinct_services;
  distinct_ips = push_ip-Distinct dev ip v.distinct_ips;
  packets_fit = unfold push_ip in v.packets_fit;
  bytes_fit = unfold push_ip in v.bytes_fit;
}

fold_observation-IsValid :
    (mac : MacAddr) (dev : Device) (obs : Observation) (now : ℕ)
    → IsValidDevice mac dev
    → IsValidDevice mac (fold_observation dev obs now)
unfolding fold_observation
fold_observation-IsValid mac dev obs now v =
    let dev' = record dev { last_seen = now } in
    let v' : IsValidDevice mac dev' = record {
      named = v.named;
      few_services = v.few_services;
      distinct_services = v.distinct_services;
      distinct_ips = v.distinct_ips;
      packets_fit = v.packets_fit;
      bytes_fit = v.bytes_fit;
    } in
    apply_signal-IsValid mac (push_observed dev' obs.ip) obs.signal (pushed obs.ip dev' v')
  where
    pushed :
        (o : Option ℕ) (d : Device) → IsValidDevice mac d → IsValidDevice mac (push_observed d o)
    pushed none d w = w
    pushed (some ip) d w = push_ip-IsValid mac d ip w

-- Whatever is observed, every device stays valid.
observe-IsValid :
    (reg : DeviceRegistry) (obs : Observation) (now : ℕ)
    → IsValid reg
    → IsValid (observe reg obs now).0
unfolding observe
observe-IsValid reg obs now v = elim (Option-cases (get obs.mac reg.devices)) [
  | inl new ↦
      rw (new, observe)
        (Entries-insert IsValidDevice obs.mac _ reg.devices
          (fold_observation-IsValid obs.mac (new_device obs.mac now) obs now
            (new_device-IsValid obs.mac now))
          v)
  | inr (dev, old) ↦
      rw (old, observe)
        (Entries-insert IsValidDevice obs.mac _ reg.devices
          (fold_observation-IsValid obs.mac dev obs now
            (Entries-get IsValidDevice obs.mac reg.devices v old))
          v)
]

set_device_type-IsValid :
    (reg : DeviceRegistry) (mac : MacAddr) (ty : Option Bytes)
    → IsValid reg
    → IsValid (set_device_type reg mac ty)
unfolding set_device_type
set_device_type-IsValid reg mac ty v =
    Entries-modify IsValidDevice mac (λ d. record d { device_type = ty }) reg.devices
      (λ d w. assumption) v

add_traffic-IsValid :
    (mac : MacAddr) (stats : FlowStats) (now : ℕ) (dev : Device)
    → IsValidDevice mac dev
    → IsValidDevice mac (add_traffic stats now dev)
unfolding add_traffic
add_traffic-IsValid mac stats now dev v = record {
  named = v.named;
  few_services = v.few_services;
  distinct_services = v.distinct_services;
  distinct_ips = v.distinct_ips;
  packets_fit = omega arith;
  bytes_fit = omega arith;
}

attribute-IsValid :
    (ip : Bytes) (f : Device → Device) (devices : Dict MacAddr Device)
    → ((mac : MacAddr) (d : Device) → IsValidDevice mac d → IsValidDevice mac (f d))
    → Entries IsValidDevice devices
    → Entries IsValidDevice (attribute ip f devices)
unfolding attribute
attribute-IsValid ip f [] k v = tt
attribute-IsValid ip f ((mac, dev) ∷ devices) k v = elim (Bool-cases (contains dev.ips ip)) [
  | inl here ↦ rw (here, attribute) (k mac dev v.0, v.1)
  | inr there ↦ rw (there, attribute) (v.0, attribute-IsValid ip f devices k v.1)
]

apply_flow-IsValid :
    (reg : DeviceRegistry) (key : FlowKey) (stats : FlowStats) (now : ℕ)
    → IsValid reg
    → IsValid (apply_flow reg key stats now)
unfolding apply_flow
apply_flow-IsValid reg key stats now v =
    attribute-IsValid (fmt_ipv4 key.src_ip) (add_traffic stats now) reg.devices
      (λ mac d. add_traffic-IsValid mac stats now d) v

pub load-IsValid :
    (reg : DeviceRegistry) (mac : MacAddr) (device : Device)
    → IsValidDevice mac device
    → IsValid reg
    → IsValid (load reg mac device)
unfolding load
load-IsValid reg mac device w v = Entries-insert IsValidDevice mac device reg.devices w v

-- What the pipeline does to the registry, one call at a time.
pub data Step (reg : DeviceRegistry) : DeviceRegistry → Type 0 where
  observed : (obs : Observation) (now : ℕ) → Step reg (observe reg obs now).0
  typed : (mac : MacAddr) (ty : Option Bytes) → Step reg (set_device_type reg mac ty)
  flowed : (key : FlowKey) (stats : FlowStats) (now : ℕ) → Step reg (apply_flow reg key stats now)
  loaded :
      (mac : MacAddr) (device : Device) → IsValidDevice mac device → Step reg (load reg mac device)

pub data Reach (reg : DeviceRegistry) : DeviceRegistry → Type 0 where
  here : Reach reg reg
  next : {a b : DeviceRegistry} → Reach reg a → Step a b → Reach reg b

pub Step-IsValid : {a b : DeviceRegistry} → Step a b → IsValid a → IsValid b
Step-IsValid {a} (observed obs now) v = observe-IsValid a obs now v
Step-IsValid {a} (typed mac ty) v = set_device_type-IsValid a mac ty v
Step-IsValid {a} (flowed key stats now) v = apply_flow-IsValid a key stats now v
Step-IsValid {a} (loaded mac device w) v = load-IsValid a mac device w v

-- From a registry of valid devices, no sequence of observations, flow snapshots, inferred types and
-- loads of valid devices leads to an invalid device: each is named by its MAC, has at most 32
-- services, lists no service and no address twice, and its counters fit in 64 bits.
pub Reach-IsValid : {a b : DeviceRegistry} → Reach a b → IsValid a → IsValid b
Reach-IsValid here v = v
Reach-IsValid (next r s) v = Step-IsValid s (Reach-IsValid r v)
