-- ===== src/App/Discovery.antt =====
-- What a discovery event leaves in the registry, in the store and in the count.
use lanscope.Common.Event.{valid_payload, event_kind, Event}
use lanscope.Decode.{decode_kind, source_ip, decode_event}
use lanscope.Base.Dict.{get-modify_self}
use lanscope.Base.Text.{Bytes}
use lanscope.App.Emitted.{emit_alerts_exact, record_all}
use lanscope.Registry.Lookup.{observe_lookup, change_of, known}
use lanscope.Common.{zero_mac, MacAddr}
use lanscope.Base.{
  none, inr, inl, Bool-cases, ◌⊎◌, length-map, sym, suc, ==_iff, arith, refl, [], ◌∙◌, ◌+◌, nat_Eq,
  list_Eq, length, ap, ◌∷◌, false, ◌==◌, map, some, Option, ◌≢◌, ◌≡◌, ℕ, List,
}
use lanscope.Decode.Defs.{Signal, Observation}
use lanscope.Storage.{Store}
use lanscope.Fingerprint.Rules.{classify}
use lanscope.Anomaly.Onnx.{Inference}
use lanscope.Registry.{
  Change, observe, fold_observation, set_device_type, get_device, DeviceRegistry, Device,
}
use lanscope.Base.Float.{Floats}
use mathlib.Core.Option
use lanscope.Base.{refl}
use lanscope.App.Registered.{report_device-registry}
use lanscope.Anomaly.Engine.{on_device}
use lanscope.App.{
  discovery, handle_event, persist_new, report_device, Pipeline, observe_classified,
  handle_observations, handle_observation, classify_known,
}

-- The device with the type that the fingerprint engine infers from it, or none.
abbrev pub classified : Device → Device
classified d = record d { device_type = Option.map (λ c. c.device_type) (classify d) }

module _ (fl : Floats) (inf : Inference fl) (st : Store) where
  -- The device that an observation leads to.
  abbrev pub observed_device : DeviceRegistry → Observation → ℕ → Device
  observed_device reg obs now = classified (fold_observation (known reg obs.mac now) obs now)

  set_device_type-get :
      (reg : DeviceRegistry) (mac : MacAddr) (dev : Device) (ty : Option Bytes)
      → get_device reg mac ≡ some dev
      → get_device (set_device_type reg mac ty) mac ≡ some (record dev { device_type = ty })
  unfolding get_device set_device_type
  set_device_type-get reg mac dev ty h =
      get-modify_self mac (λ d. record d { device_type = ty }) reg.devices h

  -- The store after a device that was unknown is handed to it.
  abbrev pub first_stored : st.State → Option Device → Device → st.State
  first_stored s none dev = (st.upsert_device s dev).0
  first_stored s (some old) dev = s

  pub persist_new-first :
      (s : st.State) (old : Option Device) (dev : Device)
      → persist_new fl inf st s (change_of old) dev ≡ first_stored s old dev
  unfolding persist_new
  persist_new-first s none dev = refl
  persist_new-first s (some old) dev = refl

  pub observe_classified_exact :
      (reg : DeviceRegistry) (obs : Observation) (now : ℕ)
      → (get_device (observe_classified fl inf st reg obs now).0 obs.mac
          ≡ some (observed_device reg obs now))
        × ((observe_classified fl inf st reg obs now).1 ≡ obs.mac)
        × ((observe_classified fl inf st reg obs now).2 ≡ change_of (get_device reg obs.mac))
  unfolding observe_classified classify_known
  observe_classified_exact reg obs now =
      let (looked, mac, change) = observe_lookup reg obs now obs.mac in
      let here : get_device (observe reg obs now).0 obs.mac
          ≡ some (fold_observation (known reg obs.mac now) obs now) =
        looked ∙ ground (arith, ==_iff obs.mac obs.mac) in
      (
        rw (mac, here)
            (set_device_type-get (observe reg obs now).0 obs.mac
              (fold_observation (known reg obs.mac now) obs now) _ here),
        mac,
        change,
      )

  report_device-stored :
      (p : Pipeline fl inf st) (dev : Device) (change : Change) (now : ℕ)
      → (report_device fl inf st p (some dev) change now).stored
        ≡ record_all fl inf st
            (persist_new fl inf st p.stored change dev)
            (on_device fl inf p.anomaly dev change now)
  unfolding report_device
  report_device-stored p dev change now =
      (emit_alerts_exact fl inf st (record p { stored = persist_new fl inf st p.stored change dev })
        (on_device fl inf p.anomaly dev change now)).0

  suc_of : (n : ℕ) → 1 + n ≡ suc n
  suc_of n = omega arith

  reported :
      (p : Pipeline fl inf st) (e : DeviceRegistry × MacAddr × Change) (mac : MacAddr)
      (dev : Device) (change : Change) (now : ℕ)
      → e.1 ≡ mac
      → e.2 ≡ change
      → get_device e.0 mac ≡ some dev
      → report_device fl inf st (record p { registry = e.0 }) (get_device e.0 e.1) e.2 now
        ≡ report_device fl inf st (record p { registry = e.0 }) (some dev) change now
  reported p e mac dev change now m c g = rw (m, c, g) refl

  pub handled :
      (p : Pipeline fl inf st) (obs : Observation) (now : ℕ)
      → obs.mac ≢ zero_mac
      → handle_observation fl inf st p obs now ≡ (
        report_device fl inf st
            (record p { registry = (observe_classified fl inf st p.registry obs now).0 })
            (some (observed_device p.registry obs now))
            (change_of (get_device p.registry obs.mac))
            now,
        1,
      )
  unfolding handle_observation
  handled p obs now h =
      let (there, mac, change) = observe_classified_exact p.registry obs now in
      let other : obs.mac == zero_mac ≡ false = ground (arith, h, ==_iff obs.mac zero_mac) in
      rw other (
        ap (λ q. (q, 1))
          (reported p (observe_classified fl inf st p.registry obs now) obs.mac
            (observed_device p.registry obs now) (change_of (get_device p.registry obs.mac)) now mac
            change there))

  -- An observation of a MAC that is not zero leaves in the registry, under that MAC, the device that was
  -- known or a new one with the observation folded in and its type inferred anew. The store gets
  -- that device at once if its MAC was unknown, and then the alerts of the detectors on it.
  pub handle_observation_exact :
      (p : Pipeline fl inf st) (obs : Observation) (now : ℕ)
      → obs.mac ≢ zero_mac
      → (get_device (handle_observation fl inf st p obs now).0.registry obs.mac
          ≡ some (observed_device p.registry obs now))
        × ((handle_observation fl inf st p obs now).0.stored
            ≡ record_all fl inf st
                (first_stored p.stored
                  (get_device p.registry obs.mac)
                  (observed_device p.registry obs now))
                (on_device fl inf p.anomaly
                  (observed_device p.registry obs now)
                  (change_of (get_device p.registry obs.mac))
                  now))
        × ((handle_observation fl inf st p obs now).1 ≡ 1)
  handle_observation_exact p obs now h =
      let (there, mac, change) = observe_classified_exact p.registry obs now in
      let registry = (observe_classified fl inf st p.registry obs now).0 in
      let dev = observed_device p.registry obs now in
      let seen_as = change_of (get_device p.registry obs.mac) in
      let eq = handled p obs now h in
      (
        ap (λ r. get_device r.0.registry obs.mac) eq
            ∙ ap (λ r. get_device r obs.mac)
                (report_device-registry fl inf st (record p { registry = registry }) (some dev)
                  seen_as now)
            ∙ there,
        ap (λ r. r.0.stored) eq
            ∙ report_device-stored (record p { registry = registry }) dev seen_as now
            ∙ ap (λ s. record_all fl inf st s (on_device fl inf p.anomaly dev seen_as now))
                (persist_new-first p.stored (get_device p.registry obs.mac) dev),
        ap (λ r. r.1) eq,
      )

  handle_observations-zero :
      (p : Pipeline fl inf st) (signals : List Signal) (ip : Option ℕ) (now : ℕ)
      → handle_observations fl inf st p
          (map (λ s. record { mac = zero_mac; ip = ip; signal = s }) signals)
          now
        ≡ (p, 0)
  unfolding handle_observations handle_observation
  handle_observations-zero p [] ip now = refl
  handle_observations-zero p (s ∷ signals) ip now =
      ap (λ r. (r.0, 0 + r.1)) (handle_observations-zero p signals ip now)

  handle_observations-count :
      (p : Pipeline fl inf st) (mac : MacAddr) (signals : List Signal) (ip : Option ℕ) (now : ℕ)
      → mac ≢ zero_mac
      → (handle_observations fl inf st p
          (map (λ s. record { mac = mac; ip = ip; signal = s }) signals)
          now).1
        ≡ length signals
  unfolding handle_observations
  handle_observations-count p mac [] ip now h = refl
  handle_observations-count p mac (s ∷ signals) ip now h =
      let obs : Observation = record { mac = mac; ip = ip; signal = s } in
      let p' = (handle_observation fl inf st p obs now).0 in
      omega (
        arith,
        ap (λ r. r.1) (handled p obs now h),
        handle_observations-count
            (handle_observation fl inf st p (record { mac = mac; ip = ip; signal = s }) now).0 mac
            signals ip now h,
      )

  -- A discovery event from the zero MAC, which the loopback interface has, changes nothing and counts
  -- for nothing; any other counts for each observation that is decoded from it.
  pub handle_event_counts :
      (p : Pipeline fl inf st) (e : Event) (now : ℕ)
      → ((e.src_mac ≡ zero_mac) × (handle_event fl inf st p (discovery e) now ≡ (p, 0)))
        ⊎ ((e.src_mac ≢ zero_mac)
            × ((handle_event fl inf st p (discovery e) now).1 ≡ length (decode_event e)))
  unfolding handle_event decode_event
  handle_event_counts p e now =
      let signals = decode_kind (event_kind e) (valid_payload e) in
      elim (Bool-cases (e.src_mac == zero_mac)) [
        | inl same ↦
            let zero_address = (==_iff e.src_mac zero_mac).0 same in
            inl (
              zero_address,
              ap
                    (λ m.
                      handle_observations fl inf st p
                        (map (λ s. record { mac = m; ip = source_ip e; signal = s }) signals) now)
                    zero_address
                  ∙ handle_observations-zero p signals (source_ip e) now,
            )
        | inr differs ↦
            let other : e.src_mac ≢ zero_mac = ground (arith, differs, ==_iff e.src_mac zero_mac) in
            inr (
              other,
              handle_observations-count p e.src_mac signals (source_ip e) now other
                  ∙ sym (length-map _ signals),
            )
      ]
