-- ===== src/App/Kept.antt =====
-- What stays true of the registry beside the store, for any store.
use lanscope.Registry.Lookup.{change_of}
use lanscope.App.Registered.{report_device-registry, observe_classified-Reach}
use lanscope.Base.{
  ap, false, ==_iff, arith, refl, ◌≢◌, inr, inl, ◌==◌, none, nat_Eq, list_Eq, [], Bool-cases, some,
  map, ◌≡◌, ◌∷◌, ℕ, contains, All, Option, List,
}
use lanscope.Base.Distinct.{Distinct}
use lanscope.Registry.Keys.{
  keys_of, set_device_type-Grows, observe-Grows, apply_flow-Grows, Grows-trans, Grows, HasMacKeys,
}
use lanscope.Common.Event.{valid_payload, event_kind}
use lanscope.App.Discovery.{
  handled, observe_classified_exact, handle_observation_exact, observed_device, first_stored,
}
use lanscope.App.Emitted.{emit_alerts_exact, record_all}
use lanscope.Decode.Defs.{Signal, Observation}
use lanscope.Decode.{source_ip, decode_kind, decode_event}
use lanscope.Common.Flow.{FlowStats, FlowKey}
use lanscope.Alert.{Alert}
use lanscope.Registry.Invariant.{flowed, here, next, Reach-IsValid, IsValid}
use lanscope.Registry.{observe, apply_flow, get_device, Device, DeviceRegistry}
use lanscope.Common.{zero_mac, IsMac, MacAddr}
use lanscope.Anomaly.Onnx.{Inference}
use lanscope.Storage.{Store}
use lanscope.Base.Float.{Floats}
use lanscope.Base.Dict.{get, Dict}
use lanscope.App.{
  handle_observation, process_flow, flows, upsert_all, observe_classified, handle_observations,
  handle_flows, handle_flow, handle_event, flush_all, Pipeline, discovery, CaptureEvent,
}
use lanscope.Anomaly.Engine.{on_device, on_flow}

-- A discovery event has a MAC address of six bytes as its source.
abbrev pub HasSource : CaptureEvent → Type 0
HasSource (discovery e) = IsMac e.src_mac
HasSource (flows snapshot) = Unit

-- A relation of a valid registry with MAC addresses as its keys and of what is stored: a registry
-- that loses nothing keeps it, and so do the two calls that change the store, where the device that
-- is stored is in the registry.
pub record Invariant (st : Store) : Type 1 where
  pub Holds : DeviceRegistry → st.State → Type 0
  pub valid : {reg : DeviceRegistry} {s : st.State} → Holds reg s → IsValid reg
  pub keys : {reg : DeviceRegistry} {s : st.State} → Holds reg s → HasMacKeys reg
  pub grown : {a b : DeviceRegistry} {s : st.State} → Grows a b → IsValid b → Holds a s → Holds b s
  pub recorded :
      (reg : DeviceRegistry) (s : st.State) (a : Alert)
      → Holds reg s
      → Holds reg (st.record_alert s a).0
  pub upserted :
      (reg : DeviceRegistry) (s : st.State) (n : MacAddr) (d : Device)
      → IsMac n
      → get_device reg n ≡ some d
      → Holds reg s
      → Holds reg (st.upsert_device s d).0

-- Every entry is what is found under its key.
abbrev AreFound : Dict MacAddr Device → Dict MacAddr Device → Type 0
AreFound all devices = All (λ e. IsMac e.0 × (get e.0 all ≡ some e.1)) devices

cons-AreFound :
    (k : MacAddr) (e : Device) (all devices : Dict MacAddr Device)
    → contains (keys_of devices) k ≡ false
    → AreFound all devices
    → AreFound ((k, e) ∷ all) devices
unfolding get
cons-AreFound k e all [] fresh f = tt
cons-AreFound k e all ((m, d) ∷ devices) fresh f =
    let differs : (k == m) ≡ false = ground (arith, fresh, ==_iff m k, ==_iff k m) in
    ((f.0.0, rw differs (f.0.1)), cons-AreFound k e all devices (ground (arith, fresh)) f.1)

keys_of-AreFound :
    (devices : Dict MacAddr Device)
    → All IsMac (keys_of devices)
    → Distinct (keys_of devices)
    → AreFound devices devices
unfolding get
keys_of-AreFound [] m d = tt
keys_of-AreFound ((k, e) ∷ devices) m d = (
  (m.0, rw ((==_iff k k).1 refl) refl),
  cons-AreFound k e devices devices d.0 (keys_of-AreFound devices m.1 d.1),
)

module _ (fl : Floats) (inf : Inference fl) {st : Store} (inv : Invariant st) where
  open inv use {Holds, valid, keys, grown, recorded, upserted}

  pub record_all-Holds :
      (reg : DeviceRegistry) (s : st.State) (alerts : List Alert)
      → Holds reg s
      → Holds reg (record_all fl inf st s alerts)
  record_all-Holds reg s [] h = h
  record_all-Holds reg s (a ∷ alerts) h =
      record_all-Holds reg (st.record_alert s a).0 alerts (recorded reg s a h)

  observe_classified-Grows :
      (reg : DeviceRegistry) (obs : Observation) (now : ℕ)
      → IsMac obs.mac
      → Grows reg (observe_classified fl inf st reg obs now).0
  unfolding observe_classified
  observe_classified-Grows reg obs now h =
      Grows-trans reg (observe reg obs now).0 _ (observe-Grows reg obs now h)
        (set_device_type-Grows (observe reg obs now).0 (observe reg obs now).1 _)

  first_stored-Holds :
      (reg : DeviceRegistry) (s : st.State) (old : Option Device) (n : MacAddr) (d : Device)
      → IsMac n
      → get_device reg n ≡ some d
      → Holds reg s
      → Holds reg (first_stored fl inf st s old d)
  first_stored-Holds reg s none n d m known h = upserted reg s n d m known h
  first_stored-Holds reg s (some old) n d m known h = h

  pub handle_observation-Holds :
      (p : Pipeline fl inf st) (obs : Observation) (now : ℕ)
      → IsMac obs.mac
      → Holds p.registry p.stored
      → let q = (handle_observation fl inf st p obs now).0 in Holds q.registry q.stored
  handle_observation-Holds p obs now m h = elim (Bool-cases (obs.mac == zero_mac)) [
    | inl zero_address ↦ unfold handle_observation in rw zero_address h
    | inr other ↦
        let differs : obs.mac ≢ zero_mac = ground (arith, other, ==_iff obs.mac zero_mac) in
        let reg = (observe_classified fl inf st p.registry obs now).0 in
        let dev = observed_device fl inf st p.registry obs now in
        let (there, stored, count) = handle_observation_exact fl inf st p obs now differs in
        let step =
          grown (observe_classified-Grows p.registry obs now m)
            (Reach-IsValid (observe_classified-Reach fl inf st p.registry obs now) (valid h)) h in
        let (known, mac, change) = observe_classified_exact fl inf st p.registry obs now in
        let first =
          first_stored-Holds reg p.stored (get_device p.registry obs.mac) obs.mac dev m known
            step in
        rw
          (
            stored,
            ap (λ r. r.0.registry) (handled fl inf st p obs now differs),
            report_device-registry fl inf st (record p { registry = reg }) (some dev)
                (change_of (get_device p.registry obs.mac)) now,
          )
          (record_all-Holds reg
            (first_stored fl inf st p.stored (get_device p.registry obs.mac) dev)
            (on_device fl inf p.anomaly dev (change_of (get_device p.registry obs.mac)) now) first)
  ]

  handle_observations-Holds :
      (p : Pipeline fl inf st) (mac : MacAddr) (signals : List Signal) (ip : Option ℕ) (now : ℕ)
      → IsMac mac
      → Holds p.registry p.stored
      → let q =
          (handle_observations fl inf st p
            (map (λ s. record { mac = mac; ip = ip; signal = s }) signals)
            now).0 in
        Holds q.registry q.stored
  unfolding handle_observations
  handle_observations-Holds p mac [] ip now m h = h
  handle_observations-Holds p mac (signal ∷ signals) ip now m h =
      let obs : Observation = record { mac = mac; ip = ip; signal = signal } in
      handle_observations-Holds
        (handle_observation fl inf st p (record { mac = mac; ip = ip; signal = signal }) now).0 mac
        signals ip now m (handle_observation-Holds p obs now m h)

  handle_flow-Holds :
      (p : Pipeline fl inf st) (key : FlowKey) (stats : FlowStats) (now : ℕ)
      → Holds p.registry p.stored
      → let q = handle_flow fl inf st p key stats now in Holds q.registry q.stored
  unfolding handle_flow process_flow
  handle_flow-Holds p key stats now h =
      let (stored, metrics, dashboard, registry, anomaly) =
        emit_alerts_exact fl inf st (process_flow fl inf st p key stats now)
          (on_flow fl inf p.anomaly key stats now).1 in
      rw (stored, registry)
        (record_all-Holds (apply_flow p.registry key stats now) p.stored
          (on_flow fl inf p.anomaly key stats now).1
          (grown (apply_flow-Grows p.registry key stats now)
            (Reach-IsValid (next here (flowed key stats now)) (valid h)) h))

  handle_flows-Holds :
      (p : Pipeline fl inf st) (snapshot : List (FlowKey × FlowStats)) (now : ℕ)
      → Holds p.registry p.stored
      → let q = handle_flows fl inf st p snapshot now in Holds q.registry q.stored
  unfolding handle_flows
  handle_flows-Holds p [] now h = h
  handle_flows-Holds p ((key, stats) ∷ rest) now h =
      handle_flows-Holds (handle_flow fl inf st p key stats now) rest now
        (handle_flow-Holds p key stats now h)

  pub handle_event-Holds :
      (p : Pipeline fl inf st) (ev : CaptureEvent) (now : ℕ)
      → HasSource ev
      → Holds p.registry p.stored
      → let q = (handle_event fl inf st p ev now).0 in Holds q.registry q.stored
  unfolding handle_event decode_event
  handle_event-Holds p (discovery e) now m h =
      handle_observations-Holds p e.src_mac (decode_kind (event_kind e) (valid_payload e))
        (source_ip e) now m h
  handle_event-Holds p (flows snapshot) now m h = handle_flows-Holds p snapshot now h

  upsert_all-Holds :
      (reg : DeviceRegistry) (s : st.State) (devices : Dict MacAddr Device)
      → AreFound reg.devices devices
      → Holds reg s
      → Holds reg (upsert_all fl inf st s devices)
  unfolding upsert_all get_device
  upsert_all-Holds reg s [] f h = h
  upsert_all-Holds reg s ((m, d) ∷ devices) f h =
      upsert_all-Holds reg (st.upsert_device s d).0 devices f.1 (upserted reg s m d f.0.0 f.0.1 h)

  pub flush_all-Holds :
      (reg : DeviceRegistry) (s : st.State) → Holds reg s → Holds reg (flush_all fl inf st reg s)
  unfolding flush_all
  flush_all-Holds reg s h =
      upsert_all-Holds reg s reg.devices (keys_of-AreFound reg.devices (keys h).0 (keys h).1) h
