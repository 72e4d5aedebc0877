-- ===== src/App/Loop.antt =====
-- `capture_loop` of lanscope/src/app.rs, on the sequence of what `select!` returns.
pub mod Flushed
pub mod Restored
pub mod Headless
pub mod Simulated
pub mod AnyStore
pub mod Healed
pub mod Crash
use lanscope.Registry.{len}
use lanscope.Storage.{Store}
use lanscope.Anomaly.Onnx.{Inference}
use lanscope.Base.Float.{Floats}
use lanscope.Base.{
  [], ◌∷◌, if◌then◌else◌, ◌^◌, ◌%◌, ◌+◌, ◌++◌, none, some, List, true, Bool, Option, ℕ,
}
use lanscope.App.{device_count, publish_devices, handle_event, flush_all, Pipeline, CaptureEvent}

-- A branch of `select!`: a message or the end of the channel, with the time at which it is
-- handled; a tick of the flush timer; a change of the shutdown flag, `None` where its sender is
-- gone.
pub data Input : Type 0 where
  received : CaptureEvent → ℕ → Input
  closed : Input
  ticked : Input
  shutdown_changed : Option Bool → Input

-- The state after the inputs: the loop has returned, or it waits for the next input.
pub data Outcome (A : Type 0) : Type 0 where
  stopped : A → ℕ → Outcome A
  waiting : A → ℕ → Outcome A

module _ (fl : Floats) (inf : Inference fl) (st : Store) where
  -- The flush that follows the loop.
  unfoldable pub finish : Pipeline fl inf st → Pipeline fl inf st
  finish p = record p { stored = flush_all fl inf st p.registry p.stored }

  -- `flush.tick()`
  unfoldable pub tick : Pipeline fl inf st → Pipeline fl inf st
  tick p = record p {
    stored = flush_all fl inf st p.registry p.stored;
    dashboard = publish_devices fl inf st p.registry p.dashboard;
    metrics = p.metrics ++ device_count (len p.registry) ∷ [];
  }

  -- `res.is_err() || *shutdown_rx.borrow()`
  must_stop : Option Bool → Bool
  must_stop none = true
  must_stop (some flag) = flag

  unfoldable pub capture_loop : Pipeline fl inf st → ℕ → List Input → Outcome (Pipeline fl inf st)
  unfolding must_stop
  capture_loop p n [] = waiting p n
  capture_loop p n (received ev now ∷ rest) =
      let (p', m) = handle_event fl inf st p ev now in capture_loop p' ((n + m) % 2 ^ 64) rest
  capture_loop p n (closed ∷ rest) = stopped (finish p) n
  capture_loop p n (ticked ∷ rest) = capture_loop (tick p) n rest
  capture_loop p n (shutdown_changed res ∷ rest) =
      let later = capture_loop p n rest in if must_stop res then stopped (finish p) n else later
