-- ===== src/App/Synced/Handled.antt =====
-- The store and the registry after an event.
use lanscope.App.Kept.{Invariant, HasSource, handle_event-Holds}
use lanscope.Base.{nat_Eq, list_Eq, refl, [], ◌≡◌, ◌∷◌, ℕ, List}
use lanscope.Alert.{Alert}
use lanscope.Anomaly.Onnx.{Inference}
use lanscope.Base.Float.{Floats}
use lanscope.Storage.Sqlite.{Json, Tables, sqlite_store, record_alert}
use lanscope.Storage.Sqlite.Upsert.{IsJson}
use lanscope.App.Emitted.{record_all}
use lanscope.App.Synced.{IsSynced, Grows-IsSynced, devices-IsSynced, upsert_device-IsSynced}
use lanscope.App.{Pipeline, CaptureEvent, handle_event}

pub record_alert-devices : (db : Tables) (a : Alert) → db.devices ≡ (record_alert db a).devices
unfolding record_alert
record_alert-devices db a = refl

module _ (fl : Floats) (inf : Inference fl) (json : Json) where
  pub record_all-devices :
      (db : Tables) (alerts : List Alert)
      → (record_all fl inf (sqlite_store json) db alerts).devices ≡ db.devices
  unfolding record_alert
  record_all-devices db [] = refl
  record_all-devices db (a ∷ alerts) = record_all-devices (record_alert db a) alerts

  -- Being in step is kept by every step of the loop.
  abbrev pub in_step : IsJson json → Invariant (sqlite_store json)
  in_step j = record {
    Holds = IsSynced json;
    valid = λ s. s.valid;
    keys = λ s. s.keys;
    grown = Grows-IsSynced json;
    recorded = λ reg db a s. devices-IsSynced json (record_alert-devices db a) s;
    upserted = λ reg db n d m known s. upsert_device-IsSynced json reg db n d j m known s;
  }

  -- An event leaves what is stored in step with what is known: no device has a row and is unknown,
  -- and none is first seen at another time than its row says.
  pub handle_event-IsSynced :
      (p : Pipeline fl inf (sqlite_store json)) (ev : CaptureEvent) (now : ℕ)
      → IsJson json
      → HasSource ev
      → IsSynced json p.registry p.stored
      → let q = (handle_event fl inf (sqlite_store json) p ev now).0 in
        IsSynced json q.registry q.stored
  handle_event-IsSynced p ev now j h s = handle_event-Holds fl inf (in_step j) p ev now h s
