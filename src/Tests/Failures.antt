-- ===== src/Tests/Failures.antt =====
-- The loop on a store that fails.
use lanscope.App.Loop.{shutdown_changed, ticked, Input, capture_loop}
use lanscope.App.Synced.{Agrees, IsSynced}
use lanscope.App.Loop.Healed.{capture_loop-IsHealed, IsHealed}
use lanscope.Registry.{get_device, Device}
use lanscope.Anomaly.Engine.{default_stack}
use lanscope.Tests.Tables.{no_tables, length_prefixed-IsJson, length_prefixed}
use lanscope.App.Loop.AnyStore.{capture_loop-unstored, unstored_outcome, unstored, dead_store}
use lanscope.Tests.Persistence.{seeded-IsSynced, seeded, pipeline}
use lanscope.Tests.Samples.{no_inference, whole_numbers}
use lanscope.Storage.Sqlite.Failing.{failing_store, Connection}
use lanscope.App.{Pipeline}
use lanscope.Base.{some, Option, none, ◌≡◌, true, false, [], List, refl, inl, ◌∷◌, ◌++◌}
use lanscope.Storage.Sqlite.{load_devices, sqlite_store}

-- The laptop is known, but it could not be stored.
abbrev lost : Connection
lost = record { tables = no_tables; outcomes = true ∷ [] }

Agrees-none : (known : Option Device) → Agrees known none
Agrees-none none = tt
Agrees-none (some d) = tt

lost-IsSynced : IsSynced length_prefixed seeded no_tables
unfolding load_devices
lost-IsSynced = record {
  valid = seeded-IsSynced.valid;
  keys = seeded-IsSynced.keys;
  rows = (tt, tt);
  agrees = λ m h. Agrees-none (get_device seeded m);
}

abbrev lost_pipeline : Pipeline whole_numbers no_inference (failing_store length_prefixed)
lost_pipeline = record {
  registry = seeded;
  anomaly = default_stack whole_numbers no_inference;
  dashboard = none;
  stored = lost;
  metrics = [];
}

abbrev nothing_yet : List Input
nothing_yet = shutdown_changed (some false) ∷ []

capture_loop-IsHealed_example : IsHealed whole_numbers no_inference length_prefixed (
    capture_loop whole_numbers no_inference
      (failing_store length_prefixed)
      lost_pipeline
      0
      (nothing_yet ++ ticked ∷ []))
unfolding capture_loop
capture_loop-IsHealed_example =
    capture_loop-IsHealed whole_numbers no_inference length_prefixed lost_pipeline 0 nothing_yet
      ticked length_prefixed-IsJson lost-IsSynced tt (refl, tt) (inl refl)

abbrev ticks : List Input
ticks = ticked ∷ ticked ∷ []

capture_loop-unstored_example :
    capture_loop whole_numbers no_inference dead_store
      (unstored whole_numbers no_inference (sqlite_store length_prefixed) pipeline)
      0
      ticks
    ≡ unstored_outcome whole_numbers no_inference
        (sqlite_store length_prefixed)
        (capture_loop whole_numbers no_inference (sqlite_store length_prefixed) pipeline 0 ticks)
capture_loop-unstored_example =
    capture_loop-unstored whole_numbers no_inference (sqlite_store length_prefixed) pipeline 0 ticks
