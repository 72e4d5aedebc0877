-- ===== src/Tests/Devices.antt =====
-- The registry, the fingerprinter and the vendor table.
use lanscope.Common.{MacAddr}
use lanscope.Fingerprint.Rules.Best.{classify-IsBest, IsBest, NoneMatches}
use lanscope.Netfmt.{fmt_ipv4}
use lanscope.Base.Text.{codes}
use lanscope.Tests.Samples.{some_stats, host_observation, one_flow, laptop_mac}
use lanscope.Base.{
  refl, ◌==◌, true, false, contains, nat_Eq, list_Eq, ◌⊎◌, none, if◌then◌else◌, [], ◌≡◌, ◌∷◌, some,
}
use lanscope.Registry.Invariant.{observed, here, next, Reach-IsValid, IsValid}
use lanscope.Registry.Flows.{apply_flow_exact}
use lanscope.Registry.{
  saturating_add, get_device, new_registry, observe, new_device, apply_flow, DeviceRegistry, Device,
}
use lanscope.Fingerprint.Rules.{classification, Rule, classify}

abbrev one_device : DeviceRegistry
one_device = (observe new_registry host_observation 100).0

Reach-IsValid_example : IsValid one_device
Reach-IsValid_example =
    Reach-IsValid {a = new_registry} {b = one_device} (next here (observed host_observation 100)) tt

abbrev listed_device : Device
listed_device = record (new_device laptop_mac 100) {
  ips = codes "10.0.0.7" ∷ codes "192.168.1.2" ∷ codes "10.0.0.8" ∷ [];
}

abbrev listed_registry : DeviceRegistry
listed_registry = record {
  devices = (laptop_mac, record listed_device { packets = 7; bytes = 90 }) ∷ [];
}

apply_flow_exact_example :
    (((m : MacAddr) (d : Device)
        → get_device listed_registry m ≡ some d
        → contains d.ips (fmt_ipv4 one_flow.src_ip) ≡ false)
      × (apply_flow listed_registry one_flow some_stats 200 ≡ listed_registry))
    ⊎ ((mac : MacAddr) × (d : Device) × (get_device listed_registry mac ≡ some d)
        × (contains d.ips (fmt_ipv4 one_flow.src_ip) ≡ true)
        × ((m : MacAddr)
            → get_device (apply_flow listed_registry one_flow some_stats 200) m ≡ (
                if mac == m
                then some (record d {
                  packets = saturating_add d.packets 3;
                  bytes = saturating_add d.bytes 1500;
                  last_seen = 200;
                })
                else get_device listed_registry m)))
apply_flow_exact_example = apply_flow_exact listed_registry one_flow some_stats 200 (refl, tt)

classify-IsBest_example :
    ((classify listed_device ≡ none) × NoneMatches listed_device)
    ⊎ ((r : Rule) × (classify listed_device ≡ some (classification r)) × IsBest listed_device r)
classify-IsBest_example = classify-IsBest listed_device
