-- ===== src/Registry.antt =====
-- lanscope/src/registry/mod.rs: the devices known, keyed by MAC. `now_unix` reads the clock and is
-- left out: operations take the time as an argument. It is never negative, so times are numbers.
pub mod Size
pub mod Ips
pub mod Invariant
pub mod Lookup
pub mod Flows
pub mod Keys
pub mod Refines
use lanscope.Base.{
  ◌==◌, ℕ, ◌+◌, ◌-◌, ◌^◌, not, ◌&&◌, Option, none, some, List, [], ◌∷◌, ◌++◌, ltb, if◌then◌else◌,
  length, contains, list_Eq, nat_Eq, min,
}
use lanscope.Base.Dict.{Dict, get, insert, modify}
use lanscope.Base.Text.{Bytes}
use lanscope.Common.{MacAddr}
use lanscope.Common.Flow.{FlowKey, FlowStats}
use lanscope.Decode.Defs.{
  Signal, hostname, service, dhcp_fingerprint, dhcp_vendor_class, seen, Observation,
}
use lanscope.Fingerprint.Oui
use lanscope.Netfmt.{fmt_mac, fmt_ipv4}

abbrev pub max_services : ℕ
max_services = 32

pub record Device : Type 0 where
  pub mac : Bytes
  pub vendor : Option Bytes
  pub hostname : Option Bytes
  pub ips : List Bytes
  pub services : List Bytes
  pub dhcp_fingerprint : Option Bytes
  pub dhcp_vendor_class : Option Bytes
  pub device_type : Option Bytes
  pub first_seen : ℕ
  pub last_seen : ℕ
  pub packets : ℕ
  pub bytes : ℕ

-- `Device::new`
unfoldable pub new_device : MacAddr → ℕ → Device
new_device mac now = record {
  mac = fmt_mac mac;
  vendor = Oui.lookup mac;
  hostname = none;
  ips = [];
  services = [];
  dhcp_fingerprint = none;
  dhcp_vendor_class = none;
  device_type = none;
  first_seen = now;
  last_seen = now;
  packets = 0;
  bytes = 0;
}

or_else {ℓ} : {A : Type ℓ} → Option A → A → A
or_else none d = d
or_else (some a) d = a

-- `Device::label`
unfoldable pub label : Device → Bytes
unfolding or_else
label d = or_else d.hostname (or_else d.vendor d.mac)

pub data Change : Type 0 where
  added updated : Change

pub record DeviceRegistry : Type 0 where
  pub devices : Dict MacAddr Device

abbrev pub new_registry : DeviceRegistry
new_registry = record { devices = [] }

-- `len` and `iter`
unfoldable pub len : DeviceRegistry → ℕ
len reg = length reg.devices

abbrev pub iter : DeviceRegistry → Dict MacAddr Device
iter reg = reg.devices

unfoldable pub load : DeviceRegistry → MacAddr → Device → DeviceRegistry
load reg mac device = record { devices = insert mac device reg.devices }

unfoldable pub get_device : DeviceRegistry → MacAddr → Option Device
get_device reg mac = get mac reg.devices

unfoldable pub set_device_type : DeviceRegistry → MacAddr → Option Bytes → DeviceRegistry
set_device_type reg mac device_type = record {
  devices = modify mac (λ d. record d { device_type = device_type }) reg.devices;
}

-- The list without the first element that equals `s`: `remove` at the position that was found.
remove_first : Bytes → List Bytes → List Bytes
remove_first s [] = []
remove_first s (x ∷ xs) = if x == s then xs else x ∷ remove_first s xs

-- The address moves to the end, or is added there.
unfoldable pub push_ip : Device → ℕ → Device
unfolding remove_first
push_ip dev ip =
    let s = fmt_ipv4 ip in
    record dev { ips = (if contains dev.ips s then remove_first s dev.ips else dev.ips) ++ s ∷ [] }

unfoldable pub apply_signal : Device → Signal → Device
apply_signal dev (hostname h) = record dev { hostname = some h }
apply_signal dev (service s) =
    if not (contains dev.services s) && ltb (length dev.services) max_services
    then record dev { services = dev.services ++ s ∷ [] }
    else dev
apply_signal dev (dhcp_fingerprint f) = record dev { dhcp_fingerprint = some f }
apply_signal dev (dhcp_vendor_class v) = record dev { dhcp_vendor_class = some v }
apply_signal dev seen = dev

-- What `observe` does to the device, after it is found or made.
push_observed : Device → Option ℕ → Device
unfolding push_ip
push_observed dev none = dev
push_observed dev (some ip) = push_ip dev ip

unfoldable pub fold_observation : Device → Observation → ℕ → Device
unfolding push_observed apply_signal
fold_observation dev obs now =
    apply_signal (push_observed (record dev { last_seen = now }) obs.ip) obs.signal

-- `entry(obs.mac).or_insert_with(…)`, with the changes made to the entry.
unfoldable pub observe : DeviceRegistry → Observation → ℕ → DeviceRegistry × MacAddr × Change
observe reg obs now = elim (get obs.mac reg.devices) [
  | none ↦ (
    record {
      devices = insert obs.mac (fold_observation (new_device obs.mac now) obs now) reg.devices;
    },
    obs.mac,
    added,
  )
  | some dev ↦ (
    record { devices = insert obs.mac (fold_observation dev obs now) reg.devices },
    obs.mac,
    updated,
  )
]

abbrev pub u64_max : ℕ
u64_max = 2 ^ 64 - 1

-- `u64::saturating_add`
abbrev pub saturating_add : ℕ → ℕ → ℕ
saturating_add a b = min (a + b) u64_max

unfoldable pub add_traffic : FlowStats → ℕ → Device → Device
add_traffic stats now dev = record dev {
  packets = saturating_add dev.packets stats.packets;
  bytes = saturating_add dev.bytes stats.bytes;
  last_seen = now;
}

-- The first device, in the order of iteration, that has the address is changed.
attribute : Bytes → (Device → Device) → Dict MacAddr Device → Dict MacAddr Device
attribute ip f [] = []
attribute ip f ((mac, dev) ∷ devices) =
    if contains dev.ips ip then (mac, f dev) ∷ devices else (mac, dev) ∷ attribute ip f devices

unfoldable pub apply_flow : DeviceRegistry → FlowKey → FlowStats → ℕ → DeviceRegistry
unfolding attribute add_traffic
apply_flow reg key stats now = record {
  devices = attribute (fmt_ipv4 key.src_ip) (add_traffic stats now) reg.devices;
}
