-- ===== src/Storage.antt =====
-- lanscope/src/storage/mod.rs: the `Store` trait. An implementation is a state with an operation
-- for each method; a call that fails says so, whatever it did to the state.
pub mod Sqlite
use lanscope.Alert.{Alert}
use lanscope.Registry.{Device}
use lanscope.Base.{ℕ, Bool, List, Option}

pub record Store : Type 1 where
  pub State : Type 0
  pub load_devices : State → Option (List Device)
  pub upsert_device : State → Device → State × Bool
  pub record_alert : State → Alert → State × Bool
  pub recent_alerts : State → ℕ → Option (List Alert)
