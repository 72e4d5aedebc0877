-- ===== src/App/Commands/Shown.antt =====
-- What `cmd_device` shows of the registry that was flushed.
use lanscope.Base.{List, ◌∙◌, ap, ◌≡◌, some, ℕ, Option}
use lanscope.Base.Text.{Bytes, to_ascii_lowercase}
use lanscope.Base.Float.{Floats}
use lanscope.Anomaly.Onnx.{Inference}
use lanscope.Common.{IsMac, MacAddr}
use lanscope.Netfmt.{DateTime, fmt_mac}
use lanscope.Registry.{Device, DeviceRegistry, get_device}
use lanscope.Storage.Sqlite.{Json, Tables, sqlite_store, load_devices}
use lanscope.Storage.Sqlite.Upsert.{IsJson, find_device}
use lanscope.App.{flush_all}
use lanscope.App.Synced.{IsSynced, flush_all-find}
use lanscope.App.Commands.Report.{dispatch, open_store, device, cmd_device, reported}
use lanscope.App.Config.{RunArgs}

-- Where `serde_json` reads back what it writes and the store was in step with the registry: after the
-- registry is flushed, the command `device` shows of a MAC address, in whatever case its letters are
-- given and whichever path the database has, exactly the device that the registry has, and says so
-- where it has none.
pub cmd_device_shows :
    (fl : Floats) (inf : Inference fl) (json : Json) (calendar : ℕ → Option DateTime)
    (pretty : List Device → Option Bytes) (capture : RunArgs → Option Bytes → Option (List Bytes))
    (default_path : Bytes) (path : Option Bytes) (reg : DeviceRegistry) (db : Tables) (m : MacAddr)
    (text : Bytes)
    → IsMac m
    → to_ascii_lowercase text ≡ fmt_mac m
    → IsJson json
    → IsSynced json reg db
    → dispatch
        (sqlite_store json)
        calendar
        pretty
        (λ p. some (flush_all fl inf (sqlite_store json) reg db))
        default_path
        capture
        path
        (device text)
      ≡ some (reported calendar text (get_device reg m))
unfolding dispatch cmd_device open_store
cmd_device_shows fl inf json calendar pretty capture default_path path reg db m text h lower j s =
    ap (λ o. some (reported calendar text o))
      (ap (λ t. find_device t (load_devices json (flush_all fl inf (sqlite_store json) reg db)))
          lower
        ∙ flush_all-find json fl inf reg db m h j s)
