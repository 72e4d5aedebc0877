-- ===== src/Registry/Refines.antt =====
-- The registry as what it promises: a map from MAC addresses to devices, whatever the order of its
-- entries.
use mathlib.Core.Path.{fun_ext, subst}
use lanscope.Base.{
  List, Option-cases, sym, ==_iff, nat_Eq, list_Eq, Bool-cases, ◌≡◌, ◌==◌, inl, inr, ◌∙◌, ap, ℕ,
  true, false, contains, Option, none, some, [], ◌∷◌, if◌then◌else◌, refl, arith,
}
use lanscope.Base.Text.{Bytes}
use lanscope.Base.Distinct.{Distinct-concat, Distinct}
use lanscope.Base.Dict.{
  get-modify-none, get-modify_ne, get-modify_self, Dict, get, insert, modify, get-insert,
}
use lanscope.Common.{MacAddr}
use lanscope.Common.Flow.{FlowKey, FlowStats}
use lanscope.Decode.Defs.{Observation}
use lanscope.Netfmt.{fmt_ipv4}
use lanscope.Registry.{
  Device, DeviceRegistry, get_device, observe, set_device_type, apply_flow, load, add_traffic,
  new_device, fold_observation,
}
use lanscope.Registry.Lookup.{known, observe_lookup}
use lanscope.Registry.Flows.{DeviceMap, put, apply_flow_exact}
use lanscope.Registry.Keys.{keys-insert, keys-modify, keys-apply_flow, keys_of}

-- The device to which an observation is added.
abbrev pub or_new : MacAddr → ℕ → Option Device → Device
or_new mac now none = new_device mac now
or_new mac now (some d) = d

-- What is asked of the registry.
pub data Op : Type 0 where
  observes : Observation → ℕ → Op
  types : MacAddr → Option Bytes → Op
  flows : FlowKey → FlowStats → ℕ → Op
  loads : MacAddr → Device → Op

abbrev pub perform : Op → DeviceRegistry → DeviceRegistry
perform (observes obs now) reg = (observe reg obs now).0
perform (types mac ty) reg = set_device_type reg mac ty
perform (flows key stats now) reg = apply_flow reg key stats now
perform (loads mac d) reg = load reg mac d

abbrev pub perform_all : List Op → DeviceRegistry → DeviceRegistry
perform_all [] reg = reg
perform_all (op ∷ ops) reg = perform_all ops (perform op reg)

-- What each of them does to the map. A flow goes to one owner of its source address, if there is one.
pub data MapStep (s : DeviceMap) : Op → DeviceMap → Type 0 where
  observed :
      (obs : Observation) (now : ℕ)
      → MapStep s
          (observes obs now)
          (put obs.mac (fold_observation (or_new obs.mac now (s obs.mac)) obs now) s)
  typed_none : (mac : MacAddr) (ty : Option Bytes) → s mac ≡ none → MapStep s (types mac ty) s
  typed :
      (mac : MacAddr) (ty : Option Bytes) (d : Device)
      → s mac ≡ some d
      → MapStep s (types mac ty) (put mac (record d { device_type = ty }) s)
  flowed_nowhere :
      (key : FlowKey) (stats : FlowStats) (now : ℕ)
      → ((m : MacAddr) (d : Device) → s m ≡ some d → contains d.ips (fmt_ipv4 key.src_ip) ≡ false)
      → MapStep s (flows key stats now) s
  flowed_to :
      (key : FlowKey) (stats : FlowStats) (now : ℕ) (mac : MacAddr) (d : Device)
      → s mac ≡ some d
      → contains d.ips (fmt_ipv4 key.src_ip) ≡ true
      → MapStep s (flows key stats now) (put mac (add_traffic stats now d) s)
  loaded : (mac : MacAddr) (d : Device) → MapStep s (loads mac d) (put mac d s)

-- The map that a registry stands for.
abbrev pub map_of : DeviceRegistry → DeviceMap
map_of reg = λ m. get_device reg m

modify-put :
    (mac : MacAddr) (f : Device → Device) (devices : Dict MacAddr Device) (d : Device) (m : MacAddr)
    → get mac devices ≡ some d
    → get m (modify mac f devices) ≡ put mac (f d) (λ n. get n devices) m
modify-put mac f devices d m h = elim (Bool-cases (mac == m)) [
  | inl same ↦
      let eq = (==_iff mac m).0 same in
      subst (λ n. get n (modify mac f devices) ≡ put mac (f d) (λ x. get x devices) n) eq
        (get-modify_self mac f devices h ∙ rw ((==_iff mac mac).1 refl) refl)
  | inr other ↦
      rw other (get-modify_ne mac m f devices (λ e. ground (arith, other, (==_iff mac m).1 e)))
]

insert-Distinct :
    (mac : MacAddr) (d : Device) (devices : Dict MacAddr Device)
    → Distinct (keys_of devices)
    → Distinct (keys_of (insert mac d devices))
insert-Distinct mac d devices u = elim (Bool-cases (contains (keys_of devices) mac)) [
  | inl old ↦ rw (keys-insert mac d devices, old) u
  | inr new ↦ rw (keys-insert mac d devices, new) (Distinct-concat (keys_of devices) mac new u)
]

observe-Distinct :
    (reg : DeviceRegistry) (obs : Observation) (now : ℕ)
    → Distinct (keys_of reg.devices)
    → Distinct (keys_of (observe reg obs now).0.devices)
unfolding observe
observe-Distinct reg obs now u = elim (Option-cases (get obs.mac reg.devices)) [
  | inl new ↦ rw (new, observe) (insert-Distinct obs.mac _ reg.devices u)
  | inr (dev, old) ↦ rw (old, observe) (insert-Distinct obs.mac _ reg.devices u)
]

perform-Distinct :
    (op : Op) (a : DeviceRegistry)
    → Distinct (keys_of a.devices)
    → Distinct (keys_of (perform op a).devices)
unfolding set_device_type load
perform-Distinct (observes obs now) a u = observe-Distinct a obs now u
perform-Distinct (types mac ty) a u =
    rw (keys-modify mac (λ d. record d { device_type = ty }) a.devices) u
perform-Distinct (flows key stats now) a u = rw (keys-apply_flow a key stats now) u
perform-Distinct (loads mac d) a u = insert-Distinct mac d a.devices u

known-or_new :
    (reg : DeviceRegistry) (mac : MacAddr) (now : ℕ)
    → known reg mac now ≡ or_new mac now (get_device reg mac)
unfolding known
known-or_new reg mac now = elim (Option-cases (get_device reg mac)) [
  | inl new ↦ rw (new, known) refl
  | inr (d, old) ↦ rw (old, known) refl
]

-- An operation on the registry is the one on the map that it stands for.
perform-MapStep :
    (op : Op) (a : DeviceRegistry)
    → Distinct (keys_of a.devices)
    → MapStep (map_of a) op (map_of (perform op a))
unfolding get_device set_device_type load add_traffic
perform-MapStep (observes obs now) a u =
    subst (MapStep (map_of a) (observes obs now))
      (fun_ext (λ m. sym (
        (observe_lookup a obs now m).0
        ∙ ap (λ d. if obs.mac == m then some (fold_observation d obs now) else get_device a m)
            (known-or_new a obs.mac now))))
      (observed obs now)
perform-MapStep (types mac ty) a u = elim (Option-cases (get mac a.devices)) [
  | inl new ↦
      subst (λ ds. MapStep (map_of a) (types mac ty) (λ m. get m ds))
        (sym (get-modify-none mac (λ d. record d { device_type = ty }) a.devices new))
        (typed_none mac ty new)
  | inr (d, old) ↦
      subst (MapStep (map_of a) (types mac ty))
        (fun_ext (λ m. sym (modify-put mac (λ x. record x { device_type = ty }) a.devices d m old)))
        (typed mac ty d old)
]
perform-MapStep (flows key stats now) a u = elim (apply_flow_exact a key stats now u) [
  | inl (unowned, same) ↦
      subst (λ b. MapStep (map_of a) (flows key stats now) (map_of b)) (sym same)
        (flowed_nowhere key stats now unowned)
  | inr (mac, d, found, has, at) ↦
      subst (MapStep (map_of a) (flows key stats now)) (fun_ext (λ m. sym (at m)))
        (flowed_to key stats now mac d found has)
]
perform-MapStep (loads mac d) a u =
    subst (MapStep (map_of a) (loads mac d)) (fun_ext (λ m. sym (get-insert mac m d a.devices)))
      (loaded mac d)

-- The maps that the operations lead to, one after the other.
pub data MapRun : DeviceMap → List Op → DeviceMap → Type 0 where
  done : {s : DeviceMap} → MapRun s [] s
  then_run :
      {op : Op} {ops : List Op} {s t v : DeviceMap}
      → MapStep s op t
      → MapRun t ops v
      → MapRun s (op ∷ ops) v

-- The registry implements a map from MAC addresses to devices, whatever the order of its entries:
-- from a registry without a double key, any operations in any order leave the registry that stands for
-- the map which the same operations, in the same order, make of the map at the start. An observation
-- changes the device under its own MAC address, known or new, and no other; a type is set where the
-- device is known; a flow goes to one device that lists its source address, and nowhere only if none
-- does; a load replaces the one device that is loaded.
pub perform_all-MapRun :
    (ops : List Op) (reg : DeviceRegistry)
    → Distinct (keys_of reg.devices)
    → MapRun (map_of reg) ops (map_of (perform_all ops reg))
perform_all-MapRun [] reg u = done
perform_all-MapRun (op ∷ ops) reg u =
    then_run (perform-MapStep op reg u)
      (perform_all-MapRun ops (perform op reg) (perform-Distinct op reg u))
