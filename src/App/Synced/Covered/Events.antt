-- ===== src/App/Synced/Covered/Events.antt =====
-- The same through a whole event.
use lanscope.App.Synced.Covered.{Has, IsCovered, handle_observation-IsCovered, find-record_all}
use mathlib.Core.Path.{subst}
use lanscope.Common.Event.{valid_payload, event_kind}
use lanscope.Registry.Invariant.{Reach-IsValid, IsValid}
use lanscope.Base.{inr, inl, map, nat_Eq, list_Eq, ℕ, Option, List, [], ◌∷◌}
use lanscope.Base.Float.{Floats}
use lanscope.Common.{IsMac, MacAddr}
use lanscope.Common.Flow.{FlowKey, FlowStats}
use lanscope.Decode.Defs.{Observation, Signal}
use lanscope.Decode.{decode_event, decode_kind, source_ip}
use lanscope.Netfmt.{fmt_mac}
use lanscope.Anomaly.Onnx.{Inference}
use lanscope.Anomaly.Engine.{on_flow}
use lanscope.Registry.{Device, DeviceRegistry, get_device, apply_flow}
use lanscope.Registry.Flows.{apply_flow-lookup}
use lanscope.Storage.Sqlite.{Json, load_devices, sqlite_store}
use lanscope.Storage.Sqlite.Upsert.{IsJson, find_device}
use lanscope.App.Emitted.{emit_alerts_exact}
use lanscope.App.Registered.{handle_observation-Reach}
use lanscope.App.Kept.{HasSource}
use lanscope.App.{
  Pipeline, CaptureEvent, discovery, flows, handle_event, handle_flow, handle_flows, process_flow,
  handle_observation, handle_observations,
}

module _ (fl : Floats) (inf : Inference fl) (json : Json) where
  handle_observations-IsCovered :
      (p : Pipeline fl inf (sqlite_store json)) (mac : MacAddr) (signals : List Signal)
      (ip : Option ℕ) (now : ℕ)
      → IsJson json
      → IsMac mac
      → IsValid p.registry
      → IsCovered fl inf json p.registry p.stored
      → let q =
          (handle_observations fl inf
            (sqlite_store json)
            p
            (map (λ s. record { mac = mac; ip = ip; signal = s }) signals)
            now).0 in
        IsCovered fl inf json q.registry q.stored
  unfolding handle_observations
  handle_observations-IsCovered p mac [] ip now j h v c = c
  handle_observations-IsCovered p mac (signal ∷ signals) ip now j h v c =
      let obs : Observation = record { mac = mac; ip = ip; signal = signal } in
      handle_observations-IsCovered
        (handle_observation fl inf (sqlite_store json) p
          (record { mac = mac; ip = ip; signal = signal }) now).0
        mac signals ip now j h
        (Reach-IsValid (handle_observation-Reach fl inf (sqlite_store json) p obs now) v)
        (handle_observation-IsCovered fl inf json p obs now j h v c)

  apply_flow-Has :
      (reg : DeviceRegistry) (key : FlowKey) (stats : FlowStats) (now : ℕ) (m : MacAddr)
      (row : Option Device)
      → Has (get_device reg m) row
      → Has (get_device (apply_flow reg key stats now) m) row
  apply_flow-Has reg key stats now m row h = elim (apply_flow-lookup reg key stats now m) [
    | inl same ↦ rw same h
    | inr (d, known, owner, after) ↦ rw after (subst (λ o. Has o row) known h)
  ]

  handle_flow-IsCovered :
      (p : Pipeline fl inf (sqlite_store json)) (key : FlowKey) (stats : FlowStats) (now : ℕ)
      → IsCovered fl inf json p.registry p.stored
      → let q = handle_flow fl inf (sqlite_store json) p key stats now in
        IsCovered fl inf json q.registry q.stored
  unfolding handle_flow process_flow
  handle_flow-IsCovered p key stats now c m hm =
      let alerts = (on_flow fl inf p.anomaly key stats now).1 in
      let (stored, metrics, dashboard, registry, anomaly) =
        emit_alerts_exact fl inf (sqlite_store json)
          (process_flow fl inf (sqlite_store json) p key stats now) alerts in
      rw (stored, registry, find-record_all fl inf json p.stored alerts (fmt_mac m))
        (apply_flow-Has p.registry key stats now m
          (find_device (fmt_mac m) (load_devices json p.stored)) (c m hm))

  handle_flows-IsCovered :
      (p : Pipeline fl inf (sqlite_store json)) (snapshot : List (FlowKey × FlowStats)) (now : ℕ)
      → IsCovered fl inf json p.registry p.stored
      → let q = handle_flows fl inf (sqlite_store json) p snapshot now in
        IsCovered fl inf json q.registry q.stored
  unfolding handle_flows
  handle_flows-IsCovered p [] now c = c
  handle_flows-IsCovered p ((key, stats) ∷ rest) now c =
      handle_flows-IsCovered (handle_flow fl inf (sqlite_store json) p key stats now) rest now
        (handle_flow-IsCovered p key stats now c)

  pub handle_event-IsCovered :
      (p : Pipeline fl inf (sqlite_store json)) (ev : CaptureEvent) (now : ℕ)
      → IsJson json
      → HasSource ev
      → IsValid p.registry
      → IsCovered fl inf json p.registry p.stored
      → let q = (handle_event fl inf (sqlite_store json) p ev now).0 in
        IsCovered fl inf json q.registry q.stored
  unfolding handle_event decode_event
  handle_event-IsCovered p (discovery e) now j h v c =
      handle_observations-IsCovered p e.src_mac (decode_kind (event_kind e) (valid_payload e))
        (source_ip e) now j h v c
  handle_event-IsCovered p (flows snapshot) now j h v c = handle_flows-IsCovered p snapshot now c
