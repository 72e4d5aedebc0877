-- ===== src/Registry/Lookup.antt =====
-- What can be read from the registry after an operation.
use lanscope.Base.Dict.{get-insert, get}
use lanscope.Decode.Defs.{Observation}
use lanscope.Common.{MacAddr}
use lanscope.Base.{
  refl, nat_Eq, list_Eq, inr, inl, Option-cases, ◌==◌, some, if◌then◌else◌, arith, ◌≡◌, none, ℕ,
  Option,
}
use lanscope.Registry.{
  updated, added, apply_signal, Change, push_ip, Device, DeviceRegistry, new_device,
  fold_observation, push_observed, observe, get_device,
}

-- The device as it is before the observation is folded in: the one known, or a new one.
unfoldable pub known : DeviceRegistry → MacAddr → ℕ → Device
known reg mac now = elim (get_device reg mac) [ none ↦ new_device mac now | some dev ↦ dev ]

abbrev pub change_of : Option Device → Change
change_of none = added
change_of (some dev) = updated

module _ (reg : DeviceRegistry) (obs : Observation) (now : ℕ) where
  -- An observation is folded into the device with its MAC, known or new, and no other device
  -- changes; it returns the MAC, and says whether the device is new.
  pub observe_lookup :
      (mac : MacAddr)
      → (get_device (observe reg obs now).0 mac ≡ (
          if obs.mac == mac
          then some (fold_observation (known reg obs.mac now) obs now)
          else get_device reg mac))
        × ((observe reg obs now).1 ≡ obs.mac)
        × ((observe reg obs now).2 ≡ change_of (get_device reg obs.mac))
  unfolding observe known get_device
  observe_lookup mac = elim (Option-cases (get obs.mac reg.devices)) [
    | inl new ↦
        rw (new, observe, known, get_device) (get-insert obs.mac mac _ reg.devices, refl, refl)
    | inr (dev, old) ↦
        rw (old, observe, known, get_device) (get-insert obs.mac mac _ reg.devices, refl, refl)
  ]

-- What an observation leaves alone, and what it always writes.
pub fold_observation_frame :
    (dev : Device) (obs : Observation) (now : ℕ)
    → ((fold_observation dev obs now).mac ≡ dev.mac)
      × ((fold_observation dev obs now).first_seen ≡ dev.first_seen)
      × ((fold_observation dev obs now).last_seen ≡ now)
      × ((fold_observation dev obs now).vendor ≡ dev.vendor)
      × ((fold_observation dev obs now).packets ≡ dev.packets)
      × ((fold_observation dev obs now).bytes ≡ dev.bytes)
      × ((fold_observation dev obs now).device_type ≡ dev.device_type)
unfolding fold_observation push_observed push_ip apply_signal
fold_observation_frame dev obs now = ground arith
