-- ===== src/Registry/Keys.antt =====
-- The MAC addresses that the registry has, and the time at which each was first seen.
use lanscope.Registry.Lookup.{fold_observation_frame}
use lanscope.Netfmt.{fmt_ipv4}
use mathlib.Core.Path.{subst}
use lanscope.Decode.Defs.{Observation}
use lanscope.Common.Flow.{FlowStats, FlowKey}
use lanscope.Base.Text.{Bytes}
use lanscope.Base.{
  false, Option-cases, ==_iff, ℕ, All-append, inr, ◌++◌, refl, inl, [], ◌∙◌, ◌==◌, none, contains,
  arith, ◌∷◌, some, nat_Eq, map, list_Eq, if◌then◌else◌, Bool-cases, ◌≡◌, Option, List, All,
}
use lanscope.Common.{IsMac, MacAddr}
use lanscope.Base.Distinct.{Distinct, Distinct-concat}
use lanscope.Base.Dict.{get-insert, get, Dict, insert, modify}
use lanscope.Registry.{
  add_traffic, set_device_type, observe, apply_flow, Device, DeviceRegistry, get_device, attribute,
}

abbrev pub keys_of {ℓ} : {V : Type ℓ} → Dict MacAddr V → List MacAddr
keys_of = map (λ e. e.0)

-- The keys after an entry is put in under a key.
abbrev pub keys_after : List Bytes → Bytes → List Bytes
keys_after keys key = if contains keys key then keys else keys ++ key ∷ []

pub keys_after-Distinct {ℓ} :
    (P : Bytes → Type ℓ) (keys : List Bytes) (key : Bytes)
    → All P keys
    → Distinct keys
    → P key
    → All P (keys_after keys key) × Distinct (keys_after keys key)
keys_after-Distinct P keys key a d k = elim (Bool-cases (contains keys key)) [
  | inl old ↦ rw old (a, d)
  | inr new ↦ rw new (All-append P keys (key ∷ []) a (k, tt), Distinct-concat keys key new d)
]

-- Every key is a MAC address, and none stands twice.
abbrev pub HasMacKeys : DeviceRegistry → Type 0
HasMacKeys reg = All IsMac (keys_of reg.devices) × Distinct (keys_of reg.devices)

-- The device is still there, and was first seen when it was.
abbrev pub Kept : Option Device → Option Device → Type 0
Kept none after = Unit
Kept (some d) none = ⊥
Kept (some d) (some e) = e.first_seen ≡ d.first_seen

Kept-refl : (o : Option Device) → Kept o o
Kept-refl none = tt
Kept-refl (some d) = refl

Kept-trans : (a b c : Option Device) → Kept a b → Kept b c → Kept a c
Kept-trans none b c h k = tt
Kept-trans (some d) none c h k = absurd h
Kept-trans (some d) (some e) none h k = k
Kept-trans (some d) (some e) (some f) h k = k ∙ h

-- A change of the registry that keeps the keys apart and loses no device.
pub record Grows (reg after : DeviceRegistry) : Type 0 where
  pub keys : HasMacKeys reg → HasMacKeys after
  pub kept : (m : MacAddr) → Kept (get_device reg m) (get_device after m)

pub Grows-refl : (reg : DeviceRegistry) → Grows reg reg
Grows-refl reg = record { keys = λ k. k; kept = λ m. Kept-refl (get_device reg m) }

pub Grows-trans : (a b c : DeviceRegistry) → Grows a b → Grows b c → Grows a c
Grows-trans a b c g h = record {
  keys = λ k. h.keys (g.keys k);
  kept = λ m. Kept-trans (get_device a m) (get_device b m) (get_device c m) (g.kept m) (h.kept m);
}

pub keys-insert :
    (key : MacAddr) (d : Device) (devices : Dict MacAddr Device)
    → keys_of (insert key d devices) ≡ keys_after (keys_of devices) key
unfolding insert
keys-insert key d [] = refl
keys-insert key d ((k, e) ∷ devices) = elim (Bool-cases (k == key)) [
  | inl same ↦ rw same refl
  | inr other ↦
      rw (other, keys-insert key d devices)
        (elim (Bool-cases (contains (keys_of devices) key)) [
          | inl old ↦ rw old refl
          | inr fresh ↦ rw fresh refl
        ])
]

pub keys-modify :
    (key : MacAddr) (f : Device → Device) (devices : Dict MacAddr Device)
    → keys_of (modify key f devices) ≡ keys_of devices
unfolding modify
keys-modify key f [] = refl
keys-modify key f ((k, e) ∷ devices) = ground (arith, keys-modify key f devices)

keys-attribute :
    (ip : Bytes) (f : Device → Device) (devices : Dict MacAddr Device)
    → keys_of (attribute ip f devices) ≡ keys_of devices
unfolding attribute
keys-attribute ip f [] = refl
keys-attribute ip f ((k, e) ∷ devices) = ground (arith, keys-attribute ip f devices)

pub keys-apply_flow :
    (reg : DeviceRegistry) (key : FlowKey) (stats : FlowStats) (now : ℕ)
    → keys_of (apply_flow reg key stats now).devices ≡ keys_of reg.devices
unfolding apply_flow
keys-apply_flow reg key stats now =
    keys-attribute (fmt_ipv4 key.src_ip) (add_traffic stats now) reg.devices

modify-Kept :
    (key : MacAddr) (f : Device → Device) (devices : Dict MacAddr Device) (m : MacAddr)
    → ((d : Device) → (f d).first_seen ≡ d.first_seen)
    → Kept (get m devices) (get m (modify key f devices))
unfolding modify get
modify-Kept key f [] m h = tt
modify-Kept key f ((k, e) ∷ devices) m h = elim (Bool-cases (k == key)) [
  | inl mine ↦ elim (Bool-cases (k == m)) [
    | inl same ↦ rw (mine, same) (h e)
    | inr other ↦ rw (mine, other) (Kept-refl (get m devices))
  ]
  | inr foreign ↦ elim (Bool-cases (k == m)) [
    | inl same ↦ rw (foreign, same) refl
    | inr other ↦ rw (foreign, other) (modify-Kept key f devices m h)
  ]
]

attribute-Kept :
    (ip : Bytes) (f : Device → Device) (devices : Dict MacAddr Device) (m : MacAddr)
    → ((d : Device) → (f d).first_seen ≡ d.first_seen)
    → Kept (get m devices) (get m (attribute ip f devices))
unfolding attribute get
attribute-Kept ip f [] m h = tt
attribute-Kept ip f ((k, e) ∷ devices) m h = elim (Bool-cases (contains e.ips ip)) [
  | inl mine ↦ elim (Bool-cases (k == m)) [
    | inl same ↦ rw (mine, same) (h e)
    | inr other ↦ rw (mine, other) (Kept-refl (get m devices))
  ]
  | inr foreign ↦ elim (Bool-cases (k == m)) [
    | inl same ↦ rw (foreign, same) refl
    | inr other ↦ rw (foreign, other) (attribute-Kept ip f devices m h)
  ]
]

pub insert-HasMacKeys :
    (reg : DeviceRegistry) (key : MacAddr) (d : Device)
    → IsMac key
    → HasMacKeys reg
    → HasMacKeys (record { devices = insert key d reg.devices })
insert-HasMacKeys reg key d h k =
    rw (keys-insert key d reg.devices)
      (keys_after-Distinct IsMac (keys_of reg.devices) key k.0 k.1 h)

insert-Grows :
    (reg : DeviceRegistry) (key : MacAddr) (d : Device)
    → IsMac key
    → Kept (get key reg.devices) (some d)
    → Grows reg (record { devices = insert key d reg.devices })
insert-Grows reg key d h kept = record {
  keys = insert-HasMacKeys reg key d h;
  kept = λ m. elim (Bool-cases (key == m)) [
    | inl same ↦
        unfold get_device in
        rw (get-insert key m d reg.devices, same)
          (subst (λ n. Kept (get n reg.devices) (some d)) ((==_iff key m).0 same) kept)
    | inr other ↦
        unfold get_device in
        rw (get-insert key m d reg.devices, other) (Kept-refl (get m reg.devices))
  ];
}

pub observe-Grows :
    (reg : DeviceRegistry) (obs : Observation) (now : ℕ)
    → IsMac obs.mac
    → Grows reg (observe reg obs now).0
unfolding observe
observe-Grows reg obs now h = elim (Option-cases (get obs.mac reg.devices)) [
  | inl fresh ↦ rw (fresh, observe) (insert-Grows reg obs.mac _ h (rw fresh tt))
  | inr (dev, old) ↦
      rw (old, observe)
        (insert-Grows reg obs.mac _ h (rw old (fold_observation_frame dev obs now).1))
]

pub set_device_type-Grows :
    (reg : DeviceRegistry) (mac : MacAddr) (ty : Option Bytes)
    → Grows reg (set_device_type reg mac ty)
unfolding set_device_type
set_device_type-Grows reg mac ty = record {
  keys = λ k. rw (keys-modify mac (λ d. record d { device_type = ty }) reg.devices) k;
  kept = λ m.
      unfold get_device in
      modify-Kept mac (λ d. record d { device_type = ty }) reg.devices m (λ d. refl);
}

pub apply_flow-Grows :
    (reg : DeviceRegistry) (key : FlowKey) (stats : FlowStats) (now : ℕ)
    → Grows reg (apply_flow reg key stats now)
unfolding apply_flow
apply_flow-Grows reg key stats now = record {
  keys = λ k. rw (keys-attribute (fmt_ipv4 key.src_ip) (add_traffic stats now) reg.devices) k;
  kept = λ m.
      unfold get_device in
      attribute-Kept (fmt_ipv4 key.src_ip) (add_traffic stats now) reg.devices m
        (λ d. unfold add_traffic in refl);
}

pub get-none_of_fresh :
    (m : MacAddr) (devices : Dict MacAddr Device)
    → contains (map (λ e. e.0) devices) m ≡ false
    → get m devices ≡ none
unfolding get
get-none_of_fresh m [] h = refl
get-none_of_fresh m ((k, d) ∷ devices) h = ground (arith, get-none_of_fresh m devices, h)
