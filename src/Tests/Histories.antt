-- ===== src/Tests/Histories.antt =====
-- Runs one after another.
use lanscope.App.Run.History.{next_run, new_database, History, History-IsRestorable, no_devices}
use lanscope.App.Run.{start_up, run, Host}
use lanscope.Error.{ok, model_not_found, err}
use lanscope.Anomaly.Engine.{default_stack}
use lanscope.Registry.{new_registry}
use lanscope.App.Loop.Restored.{IsRestorable}
use lanscope.Tests.Tables.{no_tables, length_prefixed-IsJson, length_prefixed}
use lanscope.Base.Text.{codes}
use lanscope.Tests.Samples.{laptop_mac-IsMac, no_inference, arp_event, whole_numbers}
use lanscope.Storage.Sqlite.Open.{migrate, open_path, saved, Disk}
use lanscope.App.Seeded.{AreStored}
use lanscope.App.Config.{resolve_config, span, RunArgs}
use lanscope.Base.{◌^◌, ◌%◌, ◌+◌, false, ℕ, List, refl, none, some, true, inr, ◌∷◌, []}
use lanscope.App.Loop.{capture_loop, received, closed, Input, finish}
use lanscope.App.{load_all, seed_registry, discovery, handle_event, Pipeline}
use lanscope.Storage.Sqlite.{load_devices, Tables, sqlite_store}

abbrev new_disk : Disk
new_disk = record {
  parent = λ path. some (codes "data");
  create_dir_all = λ dir. none;
  connect = λ path. inr (no_devices none);
  connect_in_memory = inr (no_devices none);
  execute_batch = λ db. none;
}

abbrev used_disk : Tables → Disk
used_disk tables = record new_disk { connect = λ path. inr (saved tables) }

abbrev host_on : Disk → Host whole_numbers no_inference (sqlite_store length_prefixed)
host_on disk = record {
  default_db_path = codes "lanscope.db";
  open_store = open_path disk;
  load_error = codes "no such table";
  install = λ addr. none;
  backend_name = λ cfg. codes "portable";
  ml = false;
  from_path = λ path. err (model_not_found path);
}

abbrev server_args : RunArgs
server_args = record {
  mode = span;
  interface = none;
  headless = true;
  metrics = none;
  model = none;
}

-- The first run starts without a device, receives an ARP event of a laptop, and ends with its
-- channel.
abbrev started : Pipeline whole_numbers no_inference (sqlite_store length_prefixed)
started = record {
  registry = new_registry;
  anomaly = default_stack whole_numbers no_inference;
  dashboard = none;
  stored = no_tables;
  metrics = [];
}

abbrev one_event : List Input
one_event = received (discovery arp_event) 200 ∷ closed ∷ []

abbrev handled_one : Pipeline whole_numbers no_inference (sqlite_store length_prefixed) × ℕ
handled_one =
    handle_event whole_numbers no_inference (sqlite_store length_prefixed) started
      (discovery arp_event) 200

abbrev left : Pipeline whole_numbers no_inference (sqlite_store length_prefixed)
left = finish whole_numbers no_inference (sqlite_store length_prefixed) handled_one.0

first_run : History whole_numbers no_inference length_prefixed left.registry left.stored
unfolding run start_up capture_loop resolve_config open_path migrate seed_registry load_all
    load_devices
first_run =
    next_run (new_database none) (used_disk no_tables) (host_on (used_disk no_tables)) server_args
      none one_event (ok tt) true (λ path. refl) (λ path. refl) (laptop_mac-IsMac, tt) left
      ((0 + handled_one.1) % 2 ^ 64) refl

History-IsRestorable_example :
    AreStored (load_devices length_prefixed left.stored)
    × IsRestorable whole_numbers no_inference length_prefixed left.registry left.stored
History-IsRestorable_example =
    History-IsRestorable whole_numbers no_inference length_prefixed first_run length_prefixed-IsJson
