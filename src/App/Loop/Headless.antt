-- ===== src/App/Loop/Headless.antt =====
-- The loop with the interface beside the loop without it.
use lanscope.App.Loop.Simulated.{capture_loop-simulated, Simulation}
use lanscope.App.{push_shared, publish_devices, Pipeline}
use lanscope.Base.{nat_Eq, list_Eq, ◌≡◌, ℕ, none, List, refl}
use lanscope.Base.Float.{Floats}
use lanscope.Anomaly.Onnx.{Inference}
use lanscope.Storage.{Store}
use lanscope.App.Loop.{Input, Outcome, stopped, waiting, capture_loop}

module _ (fl : Floats) (inf : Inference fl) (st : Store) where
  -- The same store, and no dashboard.
  unfoldable without_interface : Simulation fl inf st st
  unfolding push_shared publish_devices
  without_interface = record {
    stored_as = λ s. s;
    shown_as = λ shown. none;
    upserted = λ s d. refl;
    recorded = λ s a. refl;
    pushed = λ shown a. refl;
    published = λ reg shown. refl;
  }

  -- The same without a dashboard.
  abbrev pub headless : Pipeline fl inf st → Pipeline fl inf st
  headless p = record p { dashboard = none }

  abbrev pub headless_outcome : Outcome (Pipeline fl inf st) → Outcome (Pipeline fl inf st)
  headless_outcome (stopped q n) = stopped (headless q) n
  headless_outcome (waiting q n) = waiting (headless q) n

  -- The interface only looks: without it the loop ends when it does with it, and leaves the same
  -- registry, the same store, the same detectors, the same metrics and the same count.
  pub capture_loop-headless :
      (p : Pipeline fl inf st) (n : ℕ) (inputs : List Input)
      → capture_loop fl inf st (headless p) n inputs
        ≡ headless_outcome (capture_loop fl inf st p n inputs)
  unfolding without_interface
  capture_loop-headless p n inputs = capture_loop-simulated without_interface p n inputs
