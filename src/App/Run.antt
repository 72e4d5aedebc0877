-- ===== src/App/Run.antt =====
-- `run` and `build_anomaly_engine` of lanscope/src/app.rs: how the parts are put together. What the
-- host yields is a parameter: the store that is opened, the exporter, the model, the backend that is
-- selected, what the loop receives, how the interface returns, and whether the task of the backend
-- does. Signals and logging are left out.
pub mod Ends
pub mod History
pub mod Over
use lanscope.Base.{◌++◌, Bool, true, false, Option, none, some, List, [], ◌∷◌, ℕ, if◌then◌else◌}
use lanscope.Base.Text.{codes, Bytes}
use lanscope.Base.Float.{Floats}
use lanscope.Error.{Error, Result, ok, err, config, storage, ◌>>=◌}
use lanscope.Storage.{Store}
use lanscope.Registry.{DeviceRegistry, new_registry}
use lanscope.Anomaly.Onnx.{Inference, OnnxDetector}
use lanscope.Anomaly.Engine.{Engine, default_stack, with_detector, onnx_detector}
use lanscope.Tui.{Dashboard, new_dashboard}
use lanscope.App.{Pipeline, seed_registry}
use lanscope.App.Config.{Config, RunArgs, as_str, resolve_config}
use lanscope.App.Loop.{Input, Outcome, shutdown_changed, capture_loop}

module _ (fl : Floats) (inf : Inference fl) (st : Store) where
  -- The text of an error of the store and of the exporter; `from_path` is `OnnxDetector::from_path`,
  -- and `ml` the feature of the build.
  pub record Host : Type 0 where
    pub default_db_path : Bytes
    pub open_store : Bytes → Result st.State
    pub load_error : Bytes
    pub install : Bytes → Option Bytes
    pub backend_name : Config → Bytes
    pub ml : Bool
    pub from_path : Bytes → Result (OnnxDetector fl inf)

  with_model : Engine fl inf → Result (OnnxDetector fl inf) → Engine fl inf
  with_model engine (ok d) = with_detector fl inf engine (onnx_detector d)
  with_model engine (err e) = engine

  build : Host → Engine fl inf → Option Bytes → Engine fl inf
  unfolding with_model
  build host engine none = engine
  build host engine (some path) =
      if host.ml then with_model engine (host.from_path path) else engine

  -- `build_anomaly_engine`
  unfoldable pub build_anomaly_engine : Host → Config → Engine fl inf
  unfolding build
  build_anomaly_engine host cfg = build host (default_stack fl inf) cfg.model_path

  seeded_or : Host → Option DeviceRegistry → Result DeviceRegistry
  seeded_or host none = err (storage host.load_error)
  seeded_or host (some registry) = ok registry

  installed : Host → Option Bytes → Result {0} Unit
  installed host none = ok tt
  installed host (some addr) = elim (host.install addr) [
    | none ↦ ok tt
    | some e ↦
        err (config (codes "failed to start metrics exporter on " ++ (addr ++ (codes ": " ++ e))))
  ]

  -- `run` up to the start of the capture loop, with the state in which that starts
  unfoldable pub start_up : Host → RunArgs → Option Bytes → Result (Pipeline fl inf st)
  unfolding seeded_or installed build_anomaly_engine resolve_config seed_registry
  start_up host args db = do
    let cfg = resolve_config host.default_db_path args db
    store ← host.open_store cfg.db_path
    registry ← seeded_or host (seed_registry fl inf st new_registry store)
    done ← installed host args.metrics
    ok (record {
      registry = registry;
      anomaly = build_anomaly_engine host cfg;
      dashboard =
          if args.headless
          then none
          else some (new_dashboard (host.backend_name cfg) (as_str cfg.mode));
      stored = store;
      metrics = [];
    })

  -- How `run` ends: with an error before the capture loop starts; with the error of the interface,
  -- in which case it waits neither for the loop nor for the backend; or with success, after the loop and
  -- the task of the backend. It does not end where that task does not return.
  pub data Ending : Type 0 where
    not_started : Error → Ending
    abandoned : Error → Ending
    finished : Outcome (Pipeline fl inf st) → Ending
    held_up : Outcome (Pipeline fl inf st) → Ending

  -- `capture.await`, then `handle.await`, by whether the task of the backend returns
  joined : Bool → Outcome (Pipeline fl inf st) → Ending
  joined true o = finished o
  joined false o = held_up o

  after_ui : Pipeline fl inf st → List Input → Result {0} Unit → Bool → Ending
  unfolding joined
  after_ui p inputs (err e) returns = abandoned e
  after_ui p inputs (ok _) returns =
      joined returns (capture_loop fl inf st p 0 (inputs ++ shutdown_changed (some true) ∷ []))

  ended : RunArgs → List Input → Result {0} Unit → Bool → Result (Pipeline fl inf st) → Ending
  unfolding after_ui
  ended args inputs ui returns (err e) = not_started e
  ended args inputs ui returns (ok p) =
      if args.headless
      then joined returns (capture_loop fl inf st p 0 inputs)
      else after_ui p inputs ui returns

  -- `run`, on what the loop receives up to the end of the interface, on how that returns, and on
  -- whether the task of the backend does
  unfoldable pub run : Host → RunArgs → Option Bytes → List Input → Result {0} Unit → Bool → Ending
  unfolding start_up ended
  run host args db inputs ui returns = ended args inputs ui returns (start_up host args db)
