-- ===== src/App/Synced/Covered.antt =====
-- That every device that is known is stored, at every moment.
pub mod Events
use mathlib.Core.Path.{subst}
use lanscope.Common.Event.{valid_payload, event_kind}
use lanscope.Registry.Invariant.{Reach-IsValid, IsValidDevice, IsValid}
use lanscope.Base.Text.{Bytes}
use lanscope.Base.{
  inr, inl, map, Option-cases, Bool-cases, nat_Eq, list_Eq, ==_iff, false, ◌≡◌, ◌≢◌, ◌==◌, ◌∙◌, sym,
  ap, ℕ, Option, none, some, List, [], ◌∷◌, arith, refl,
}
use lanscope.Base.Float.{Floats}
use lanscope.Base.Dict.{Entries-get, get-modify_ne}
use lanscope.Common.{IsMac, MacAddr, zero_mac}
use lanscope.Common.Flow.{FlowKey, FlowStats}
use lanscope.Decode.Defs.{Observation, Signal}
use lanscope.Decode.{decode_event, decode_kind, source_ip}
use lanscope.Alert.{Alert}
use lanscope.Netfmt.{fmt_mac}
use lanscope.Anomaly.Onnx.{Inference}
use lanscope.Anomaly.Engine.{on_device, on_flow}
use lanscope.Registry.{Device, DeviceRegistry, get_device, observe, set_device_type, apply_flow}
use lanscope.Registry.Lookup.{change_of, observe_lookup}
use lanscope.Registry.Flows.{apply_flow-lookup}
use lanscope.Storage.Sqlite.{device_of, Json, Tables, load_devices, sqlite_store}
use lanscope.Storage.Sqlite.Upsert.{IsJson, find_device, upsert_device-load}
use lanscope.App.Emitted.{emit_alerts_exact, record_all}
use lanscope.App.Restart.{not_same}
use lanscope.App.Registered.{handle_observation-Reach, observe_classified-Reach}
use lanscope.App.Discovery.{
  observe_classified_exact, handle_observation_exact, observed_device, first_stored, handled,
}
use lanscope.App.Registered.{report_device-registry}
use lanscope.App.Kept.{HasSource}
use lanscope.App.Synced.Handled.{record_all-devices}
use lanscope.App.{
  Pipeline, CaptureEvent, discovery, flows, handle_event, handle_flow, handle_flows, process_flow,
  handle_observation, handle_observations, observe_classified,
}

-- What is known is stored.
abbrev pub Has : Option Device → Option Device → Type 0
Has none row = Unit
Has (some d) none = ⊥
Has (some d) (some row) = Unit

pub Has-refl : (o : Option Device) → Has o o
Has-refl none = tt
Has-refl (some d) = tt

Has-stored : (o : Option Device) (row : Option Device) (d : Device) → row ≡ some d → Has o row
Has-stored none row d h = tt
Has-stored (some e) none d h = cc
Has-stored (some e) (some r) d h = tt

set_device_type-elsewhere :
    (reg : DeviceRegistry) (mac m : MacAddr) (ty : Option Bytes)
    → mac ≢ m
    → get_device (set_device_type reg mac ty) m ≡ get_device reg m
unfolding get_device set_device_type
set_device_type-elsewhere reg mac m ty differs =
    get-modify_ne mac m (λ d. record d { device_type = ty }) reg.devices differs

module _ (fl : Floats) (inf : Inference fl) (json : Json) where
  -- Every device of the registry has a row in the table of devices.
  abbrev pub IsCovered : DeviceRegistry → Tables → Type 0
  IsCovered reg db =
      (m : MacAddr)
      → IsMac m
      → Has (get_device reg m) (find_device (fmt_mac m) (load_devices json db))

  observe_classified-elsewhere :
      (reg : DeviceRegistry) (obs : Observation) (now : ℕ) (m : MacAddr)
      → obs.mac ≢ m
      → get_device (observe_classified fl inf (sqlite_store json) reg obs now).0 m
        ≡ get_device reg m
  unfolding observe_classified
  observe_classified-elsewhere reg obs now m differs =
      let (looked, mac, change) = observe_lookup reg obs now m in
      let other : obs.mac == m ≡ false = ground (arith, differs, ==_iff obs.mac m) in
      set_device_type-elsewhere (observe reg obs now).0 (observe reg obs now).1 m _
        (λ e. differs (sym mac ∙ e))
      ∙ looked
      ∙ rw other refl

  -- The row of a device that is stored where it was unknown.
  first_stored_self :
      (db : Tables) (old : Option Device) (n : MacAddr) (d : Device)
      → IsJson json
      → IsValidDevice n d
      → Has old (find_device (fmt_mac n) (load_devices json db))
      → Has (some d) (
          find_device
            (fmt_mac n)
            (load_devices json (first_stored fl inf (sqlite_store json) db old d)))
  first_stored_self db none n d j v h =
      rw
        (
          upsert_device-load json db d (fmt_mac n) j (omega (arith, v.packets_fit))
              (omega (arith, v.bytes_fit)),
          (==_iff d.mac (fmt_mac n)).1 v.named,
        )
        tt
  first_stored_self db (some old) n d j v h =
      elim (Option-cases (find_device (fmt_mac n) (load_devices json db))) [
        | inl missing ↦ absurd (rw missing at h)
        | inr (row, found) ↦ rw found tt
      ]

  first_stored-elsewhere :
      (db : Tables) (old : Option Device) (n m : MacAddr) (d : Device)
      → IsJson json
      → IsValidDevice n d
      → IsMac n
      → IsMac m
      → n == m ≡ false
      → find_device
          (fmt_mac m)
          (load_devices json (first_stored fl inf (sqlite_store json) db old d))
        ≡ find_device (fmt_mac m) (load_devices json db)
  first_stored-elsewhere db none n m d j v hn hm other =
      rw
        (
          upsert_device-load json db d (fmt_mac m) j (omega (arith, v.packets_fit))
              (omega (arith, v.bytes_fit)),
          not_same d.mac n m v.named hn hm other,
        )
        refl
  first_stored-elsewhere db (some old) n m d j v hn hm other = refl

  pub find-record_all :
      (db : Tables) (alerts : List Alert) (text : Bytes)
      → find_device text (load_devices json (record_all fl inf (sqlite_store json) db alerts))
        ≡ find_device text (load_devices json db)
  unfolding load_devices
  find-record_all db alerts text =
      ap (λ rows. find_device text (map (device_of json) rows))
        (record_all-devices fl inf json db alerts)

  pub handle_observation-IsCovered :
      (p : Pipeline fl inf (sqlite_store json)) (obs : Observation) (now : ℕ)
      → IsJson json
      → IsMac obs.mac
      → IsValid p.registry
      → IsCovered p.registry p.stored
      → IsCovered
          (handle_observation fl inf (sqlite_store json) p obs now).0.registry
          (handle_observation fl inf (sqlite_store json) p obs now).0.stored
  handle_observation-IsCovered p obs now j h v c m hm = elim (Bool-cases (obs.mac == zero_mac)) [
    | inl zero_address ↦ unfold handle_observation in rw zero_address (c m hm)
    | inr other ↦
        let st = sqlite_store json in
        let differs : obs.mac ≢ zero_mac = ground (arith, other, ==_iff obs.mac zero_mac) in
        let reg = (observe_classified fl inf st p.registry obs now).0 in
        let dev = observed_device fl inf st p.registry obs now in
        let old = get_device p.registry obs.mac in
        let (there, stored, count) = handle_observation_exact fl inf st p obs now differs in
        let (known, mac, change) = observe_classified_exact fl inf st p.registry obs now in
        let valid : IsValidDevice obs.mac dev =
          unfold get_device in
          Entries-get IsValidDevice obs.mac reg.devices
            (Reach-IsValid (observe_classified-Reach fl inf st p.registry obs now) v) known in
        rw
          (
            stored,
            ap (λ r. r.0.registry) (handled fl inf st p obs now differs),
            report_device-registry fl inf st (record p { registry = reg }) (some dev)
                (change_of old) now,
            find-record_all (first_stored fl inf st p.stored old dev)
                (on_device fl inf p.anomaly dev (change_of old) now) (fmt_mac m),
          )
          (elim (Bool-cases (obs.mac == m)) [
            | inl same ↦
                subst
                  (λ n. Has (get_device reg n) (
                    find_device (fmt_mac n)
                      (load_devices json (first_stored fl inf st p.stored old dev))))
                  ((==_iff obs.mac m).0 same)
                  (rw known (first_stored_self p.stored old obs.mac dev j valid (c obs.mac h)))
            | inr apart ↦
                rw
                  (
                    observe_classified-elsewhere p.registry obs now m
                        (ground (arith, apart, ==_iff obs.mac m)),
                    first_stored-elsewhere p.stored old obs.mac m dev j valid h hm apart,
                  )
                  (c m hm)
          ])
  ]
