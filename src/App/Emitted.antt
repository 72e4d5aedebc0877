-- ===== src/App/Emitted.antt =====
-- What becomes of a batch of alerts.
use mathlib.Core.List.{append_assoc, append-nil}
use lanscope.App.{emit_alert, push_shared}
use lanscope.Tui.Feed.{push_all}
use lanscope.Tui.{Dashboard}
use lanscope.Alert.{Alert}
use lanscope.Base.{◌∙◌, sym, refl, none, map, ◌++◌, [], ◌≡◌, ◌∷◌, some, Option, List}
use lanscope.App.{alert_recorded, emit_alerts, Pipeline}
use lanscope.Storage.{Store}
use lanscope.Anomaly.Onnx.{Inference}
use lanscope.Base.Float.{Floats}

module _ (fl : Floats) (inf : Inference fl) (st : Store) where
  open st use {State, upsert_device, record_alert}

  -- The store after each alert of the batch is recorded, in order, whichever of them fail.
  abbrev pub record_all : State → List Alert → State
  record_all s [] = s
  record_all s (a ∷ alerts) = record_all (record_alert s a).0 alerts

  -- The dashboard after each alert of the batch is pushed, in order.
  abbrev pub push_all_shared : Option Dashboard → List Alert → Option Dashboard
  push_all_shared none alerts = none
  push_all_shared (some dash) alerts = some (push_all dash alerts)

  push_all_shared-cons :
      (d : Option Dashboard) (a : Alert) (alerts : List Alert)
      → push_all_shared (push_shared fl inf st d a) alerts ≡ push_all_shared d (a ∷ alerts)
  unfolding push_shared
  push_all_shared-cons none a alerts = refl
  push_all_shared-cons (some dash) a alerts = refl

  push_all_shared-nil : (d : Option Dashboard) → d ≡ push_all_shared d []
  push_all_shared-nil none = refl
  push_all_shared-nil (some dash) = refl

  -- Every alert of a batch is handed to the store, counted and pushed to the dashboard, in the
  -- order of the batch and even where the store fails; the registry and the detectors stay.
  pub emit_alerts_exact :
      (p : Pipeline fl inf st) (alerts : List Alert)
      → ((emit_alerts fl inf st p alerts).stored ≡ record_all p.stored alerts)
        × ((emit_alerts fl inf st p alerts).metrics
            ≡ p.metrics ++ map (λ a. alert_recorded a.severity) alerts)
        × ((emit_alerts fl inf st p alerts).dashboard ≡ push_all_shared p.dashboard alerts)
        × ((emit_alerts fl inf st p alerts).registry ≡ p.registry)
        × ((emit_alerts fl inf st p alerts).anomaly ≡ p.anomaly)
  unfolding emit_alerts emit_alert
  emit_alerts_exact p [] =
      (refl, sym (append-nil p.metrics), push_all_shared-nil p.dashboard, refl, refl)
  emit_alerts_exact p (a ∷ alerts) =
      let (stored, metrics, dashboard, registry, anomaly) =
        emit_alerts_exact (emit_alert fl inf st p a) alerts in
      (
        stored,
        metrics
            ∙ append_assoc p.metrics (alert_recorded a.severity ∷ [])
                (map (λ b. alert_recorded b.severity) alerts),
        dashboard ∙ push_all_shared-cons p.dashboard a alerts,
        registry,
        anomaly,
      )
