-- ===== src/Tests/Persistence.antt =====
-- What is stored and what a restart finds.
use lanscope.App.Loop.Crash.{load_all-IsCovered, capture_loop-SurvivesCrash, SurvivesCrash}
use lanscope.App.{flows, flush_all, discovery, load_all, Pipeline}
use lanscope.App.Commands.Shown.{cmd_device_shows}
use lanscope.App.Run.{run, Host}
use lanscope.App.Loop.{ticked, closed, received, Input, capture_loop}
use lanscope.App.Commands.Report.{device, dispatch, reported}
use lanscope.Registry.Invariant.{new_device-IsValid}
use lanscope.Storage.Sqlite.Upsert.{device_of-row_of}
use lanscope.Tui.{new_dashboard}
use lanscope.Error.{model_not_found, err, ok}
use lanscope.App.Loop.Headless.{capture_loop-headless, headless_outcome, headless}
use lanscope.Anomaly.Engine.{default_stack}
use mathlib.Core.Path.{subst}
use lanscope.Netfmt.{fmt_mac}
use lanscope.Storage.Sqlite.{upsert_device, sqlite_store, load_devices, Tables}
use lanscope.Registry.Refines.{
  perform_all-MapRun, map_of, MapRun, Op, observes, types, flows, perform_all,
}
use lanscope.Registry.{get_device, new_registry, new_device, DeviceRegistry, Device}
use lanscope.Base.Text.{codes, to_ascii_lowercase}
use lanscope.Base.{arith, refl, ap, some, false, ◌++◌, sym, none, [], ◌≡◌, ◌∷◌, List}
use lanscope.App.Synced.{IsSynced}
use lanscope.App.Seeded.{load_all-IsSynced, AreStored}
use lanscope.App.Run.Over.{portable_task, returns_when_told, Task, IsOver, run-IsOver}
use lanscope.App.Loop.Restored.{capture_loop-IsRestored, IsRestored, HasSources}
use lanscope.App.Config.{span, RunArgs}
use lanscope.Tests.Samples.{
  whole_numbers, no_inference, laptop_mac, laptop_mac-IsMac, arp_event, host_observation, one_flow,
  some_stats,
}
use lanscope.Tests.Tables.{length_prefixed, length_prefixed-IsJson, no_tables}

abbrev laptop : Device
laptop = new_device laptop_mac 100

abbrev pub laptop_tables : Tables
laptop_tables = upsert_device length_prefixed no_tables laptop

-- The table is read through the text format.
laptop_tables-load : load_devices length_prefixed laptop_tables ≡ laptop ∷ []
unfolding load_devices upsert_device new_device
laptop_tables-load =
    ap (λ d. d ∷ [])
      (device_of-row_of length_prefixed laptop length_prefixed-IsJson (omega arith) (omega arith))

laptop-AreStored : AreStored (laptop ∷ [])
laptop-AreStored =
    (((laptop_mac, laptop_mac-IsMac, new_device-IsValid laptop_mac 100), tt), (refl, tt))

pub laptop_tables-AreStored : AreStored (load_devices length_prefixed laptop_tables)
laptop_tables-AreStored = subst AreStored (sym laptop_tables-load) laptop-AreStored

abbrev host : Host whole_numbers no_inference (sqlite_store length_prefixed)
host = record {
  default_db_path = codes "lanscope.db";
  open_store = λ path. ok laptop_tables;
  load_error = codes "no such table";
  install = λ addr. none;
  backend_name = λ cfg. codes "portable";
  ml = false;
  from_path = λ path. err (model_not_found path);
}

abbrev shown_args : RunArgs
shown_args = record {
  mode = span;
  interface = none;
  headless = false;
  metrics = none;
  model = none;
}

abbrev inputs : List Input
inputs =
    received (discovery arp_event) 200
    ∷ ticked
    ∷ received (flows ((one_flow, some_stats) ∷ [])) 300
    ∷ []

inputs-HasSources : HasSources inputs
inputs-HasSources = (laptop_mac-IsMac, (tt, tt))

-- The portable backend, which has a receiver.
abbrev a_task : Task
a_task = portable_task (record { sent = []; accepts = none }) false (some false ∷ [])

run-IsOver_example :
    IsOver whole_numbers no_inference
      (sqlite_store length_prefixed)
      host
      shown_args
      none
      (run whole_numbers no_inference
        (sqlite_store length_prefixed)
        host
        shown_args
        none
        inputs
        (ok tt)
        (returns_when_told a_task))
      (ok tt)
run-IsOver_example =
    run-IsOver whole_numbers no_inference (sqlite_store length_prefixed) host shown_args none inputs
      (ok tt) a_task refl

abbrev pub seeded : DeviceRegistry
seeded =
    load_all whole_numbers no_inference (sqlite_store length_prefixed) new_registry
      (load_devices length_prefixed laptop_tables)

pub seeded-IsSynced : IsSynced length_prefixed seeded laptop_tables
seeded-IsSynced =
    load_all-IsSynced whole_numbers no_inference length_prefixed laptop_tables
      laptop_tables-AreStored

abbrev pub pipeline : Pipeline whole_numbers no_inference (sqlite_store length_prefixed)
pipeline = record {
  registry = seeded;
  anomaly = default_stack whole_numbers no_inference;
  dashboard = some (new_dashboard (codes "portable") (codes "span"));
  stored = laptop_tables;
  metrics = [];
}

capture_loop-IsRestored_example : IsRestored whole_numbers no_inference length_prefixed (
    capture_loop whole_numbers no_inference
      (sqlite_store length_prefixed)
      pipeline
      0
      (inputs ++ closed ∷ []))
capture_loop-IsRestored_example =
    capture_loop-IsRestored whole_numbers no_inference length_prefixed pipeline 0
      (inputs ++ closed ∷ []) length_prefixed-IsJson seeded-IsSynced (laptop_mac-IsMac, (tt, tt))

capture_loop-SurvivesCrash_example :
    SurvivesCrash whole_numbers no_inference length_prefixed
      (capture_loop whole_numbers no_inference (sqlite_store length_prefixed) pipeline 0 inputs)
capture_loop-SurvivesCrash_example =
    capture_loop-SurvivesCrash whole_numbers no_inference length_prefixed pipeline 0 inputs
      length_prefixed-IsJson seeded-IsSynced
      (load_all-IsCovered whole_numbers no_inference length_prefixed laptop_tables
        laptop_tables-AreStored)
      inputs-HasSources

capture_loop-headless_example :
    capture_loop whole_numbers no_inference
      (sqlite_store length_prefixed)
      (headless whole_numbers no_inference (sqlite_store length_prefixed) pipeline)
      0
      inputs
    ≡ headless_outcome whole_numbers no_inference
        (sqlite_store length_prefixed)
        (capture_loop whole_numbers no_inference (sqlite_store length_prefixed) pipeline 0 inputs)
capture_loop-headless_example =
    capture_loop-headless whole_numbers no_inference (sqlite_store length_prefixed) pipeline 0
      inputs

cmd_device_shows_example :
    dispatch
      (sqlite_store length_prefixed)
      (λ t. none)
      (λ devices. none)
      (λ p.
        some (
          flush_all whole_numbers no_inference (sqlite_store length_prefixed) seeded laptop_tables))
      (codes "lanscope.db")
      (λ args db. none)
      none
      (device (codes "3C:22:FB:01:02:03"))
    ≡ some (reported (λ t. none) (codes "3C:22:FB:01:02:03") (get_device seeded laptop_mac))
unfolding to_ascii_lowercase fmt_mac
cmd_device_shows_example =
    cmd_device_shows whole_numbers no_inference length_prefixed (λ t. none) (λ devices. none)
      (λ args db. none) (codes "lanscope.db") none seeded laptop_tables laptop_mac
      (codes "3C:22:FB:01:02:03") laptop_mac-IsMac refl length_prefixed-IsJson seeded-IsSynced

abbrev three_ops : List Op
three_ops =
    observes host_observation 100
    ∷ types laptop_mac (some (codes "laptop"))
    ∷ flows one_flow some_stats 200
    ∷ []

perform_all-MapRun_example :
    MapRun (map_of new_registry) three_ops (map_of (perform_all three_ops new_registry))
perform_all-MapRun_example = perform_all-MapRun three_ops new_registry tt
