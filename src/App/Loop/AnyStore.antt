-- ===== src/App/Loop/AnyStore.antt =====
-- The loop with a store beside the loop with one whose every call fails.
use lanscope.Registry.{DeviceRegistry}
use lanscope.Alert.{Alert}
use lanscope.Tui.{Dashboard}
use lanscope.App.Loop.Simulated.{capture_loop-simulated, Simulation}
use lanscope.App.{publish_devices, push_shared, Pipeline}
use lanscope.Base.{refl, some, ◌≡◌, Option, List, ℕ, false, none}
use lanscope.Anomaly.Onnx.{Inference}
use lanscope.Storage.{Store}
use lanscope.Base.Float.{Floats}
use lanscope.App.Loop.{Input, waiting, stopped, Outcome, capture_loop}

-- A store that is never there.
abbrev pub dead_store : Store
dead_store = record {
  State = Unit;
  load_devices = λ s. none;
  upsert_device = λ s d. (tt, false);
  record_alert = λ s a. (tt, false);
  recent_alerts = λ s limit. none;
}

module _ (fl : Floats) (inf : Inference fl) (st : Store) where
  unfoldable without_store : Simulation fl inf st dead_store
  unfolding push_shared publish_devices
  without_store = record {
    stored_as = λ s. tt;
    shown_as = λ shown. shown;
    upserted = λ s d. refl;
    recorded = λ s a. refl;
    pushed = λ shown a. pushed_same shown a;
    published = λ reg shown. published_same reg shown;
  }
    where
      pushed_same :
          (shown : Option Dashboard) (a : Alert)
          → push_shared fl inf st shown a ≡ push_shared fl inf dead_store shown a
      pushed_same none a = refl
      pushed_same (some dash) a = refl

      published_same :
          (reg : DeviceRegistry) (shown : Option Dashboard)
          → publish_devices fl inf st reg shown ≡ publish_devices fl inf dead_store reg shown
      published_same reg none = refl
      published_same reg (some dash) = refl

  -- The same pipeline with nothing stored.
  abbrev pub unstored : Pipeline fl inf st → Pipeline fl inf dead_store
  unstored p = record {
    registry = p.registry;
    anomaly = p.anomaly;
    dashboard = p.dashboard;
    stored = tt;
    metrics = p.metrics;
  }

  abbrev pub unstored_outcome : Outcome (Pipeline fl inf st) → Outcome (Pipeline fl inf dead_store)
  unstored_outcome (stopped q n) = stopped (unstored q) n
  unstored_outcome (waiting q n) = waiting (unstored q) n

  -- Whatever the store does with its calls, each succeeding or failing: the loop ends when it does
  -- with a store whose every call fails, with the same registry, the same detectors, the same
  -- dashboard with the same alerts, the same metrics and the same count.
  pub capture_loop-unstored :
      (p : Pipeline fl inf st) (n : ℕ) (inputs : List Input)
      → capture_loop fl inf dead_store (unstored p) n inputs
        ≡ unstored_outcome (capture_loop fl inf st p n inputs)
  unfolding without_store
  capture_loop-unstored p n inputs = capture_loop-simulated without_store p n inputs
