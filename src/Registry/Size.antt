-- ===== src/Registry/Size.antt =====
-- How many devices the registry has.
use lanscope.Netfmt.{fmt_ipv4}
use lanscope.Registry.Invariant.{Step, Reach, here, next, observed, typed, flowed, loaded}
use lanscope.Decode.Defs.{Observation}
use lanscope.Common.{MacAddr}
use lanscope.Base.Text.{Bytes}
use lanscope.Registry.{
  add_traffic, new_device, fold_observation, apply_flow, set_device_type, Device, load, observe,
  len, attribute, DeviceRegistry,
}
use lanscope.Base.Dict.{get, Dict, modify, insert}
use lanscope.Base.{
  inr, nat_Eq, list_Eq, [], ◌≡◌, ◌∷◌, inl, length, Option-cases, ℕ, arith, ◌≤◌, refl,
}

length-insert-le :
    (mac : MacAddr) (d : Device) (devices : Dict MacAddr Device)
    → length devices ≤ length (insert mac d devices)
unfolding insert
length-insert-le mac d [] = omega arith
length-insert-le mac d ((m, e) ∷ devices) = ground (arith, length-insert-le mac d devices)

length-modify :
    (mac : MacAddr) (f : Device → Device) (devices : Dict MacAddr Device)
    → length (modify mac f devices) ≡ length devices
unfolding modify
length-modify mac f [] = refl
length-modify mac f ((m, e) ∷ devices) = ground (arith, length-modify mac f devices)

length-attribute :
    (ip : Bytes) (f : Device → Device) (devices : Dict MacAddr Device)
    → length (attribute ip f devices) ≡ length devices
unfolding attribute
length-attribute ip f [] = refl
length-attribute ip f ((m, e) ∷ devices) = ground (arith, length-attribute ip f devices)

observe-len :
    (reg : DeviceRegistry) (obs : Observation) (now : ℕ) → len reg ≤ len (observe reg obs now).0
unfolding observe len
observe-len reg obs now = elim (Option-cases (get obs.mac reg.devices)) [
  | inl new ↦
      rw (new, observe)
        (length-insert-le obs.mac (fold_observation (new_device obs.mac now) obs now) reg.devices)
  | inr (dev, old) ↦
      rw (old, observe) (length-insert-le obs.mac (fold_observation dev obs now) reg.devices)
]

Step-len : {a b : DeviceRegistry} → Step a b → len a ≤ len b
unfolding len load set_device_type apply_flow
Step-len {a} (observed obs now) = observe-len a obs now
Step-len {a} (typed mac ty) =
    omega (arith, length-modify mac (λ d. record d { device_type = ty }) a.devices)
Step-len {a} (flowed key stats now) =
    omega (arith, length-attribute (fmt_ipv4 key.src_ip) (add_traffic stats now) a.devices)
Step-len {a} (loaded mac device valid) = length-insert-le mac device a.devices

-- No device is ever taken out of the registry.
pub Reach-len : {a b : DeviceRegistry} → Reach a b → len a ≤ len b
Reach-len here = omega arith
Reach-len (next r s) = omega (arith, Reach-len r, Step-len s)
