-- ===== src/Tests/Tables.antt =====
-- The tables of the store.
use lanscope.Storage.Sqlite.Recent.{recent_alerts-record_alert}
use lanscope.Tests.Samples.{alert_at, laptop_mac}
use lanscope.Storage.Sqlite.Upsert.{upsert_device-load, first_seen_of, find_device, IsJson}
use lanscope.Storage.Sqlite.{record_alert, recent_alerts, upsert_device, load_devices, Tables, Json}
use lanscope.Registry.{new_device, Device}
use lanscope.Base.Text.{Bytes}
use lanscope.Base.{
  nat_Eq, list_Eq, arith, zero, ◌==◌, ◌+◌, drop-append, drop, ◌^◌, take-append, take, refl,
  if◌then◌else◌, ◌≡◌, ◌++◌, suc, none, ap, ◌∷◌, some, length, [], Option, ℕ, List,
}

-- A text format in place of JSON: each text behind its length, and all behind their number.
pub write_texts : List Bytes → Bytes
write_texts [] = []
write_texts (t ∷ texts) = length t ∷ (t ++ write_texts texts)

pub read_texts : ℕ → Bytes → List Bytes
read_texts zero s = []
read_texts (suc n) [] = []
read_texts (suc n) (k ∷ s) = take k s ∷ read_texts n (drop k s)

pub read_counted : Bytes → Option (List Bytes)
unfolding read_texts
read_counted [] = none
read_counted (n ∷ s) = some (read_texts n s)

abbrev pub length_prefixed : Json
length_prefixed = record {
  to_string = λ texts. some (length texts ∷ write_texts texts);
  from_string = read_counted;
}

read_texts-write_texts :
    (texts : List Bytes) → read_texts (length texts) (write_texts texts) ≡ texts
unfolding read_texts write_texts
read_texts-write_texts [] = refl
read_texts-write_texts (t ∷ texts) =
    rw
      (
        take-append t (write_texts texts),
        drop-append t (write_texts texts),
        read_texts-write_texts texts,
      )
      refl

pub length_prefixed-IsJson : IsJson length_prefixed
unfolding read_counted
length_prefixed-IsJson texts =
    (length texts ∷ write_texts texts, refl, ap some (read_texts-write_texts texts))

abbrev pub no_tables : Tables
no_tables = record { devices = []; alerts = [] }

abbrev stored_device : Device
stored_device = record (new_device laptop_mac 100) { packets = 2 ^ 63 + 5; bytes = 90 }

upsert_device-load_example :
    find_device stored_device.mac
      (load_devices length_prefixed (upsert_device length_prefixed no_tables stored_device))
    ≡ (if stored_device.mac == stored_device.mac
        then some (
            first_seen_of
              (find_device stored_device.mac (load_devices length_prefixed no_tables))
              stored_device)
        else find_device stored_device.mac (load_devices length_prefixed no_tables))
upsert_device-load_example =
    upsert_device-load length_prefixed no_tables stored_device stored_device.mac
      length_prefixed-IsJson (omega arith) (omega arith)

recent_alerts-record_alert_example :
    recent_alerts (record_alert no_tables (alert_at 5)) 3 ≡ alert_at 5 ∷ recent_alerts no_tables 2
recent_alerts-record_alert_example = recent_alerts-record_alert no_tables (alert_at 5) 2 tt
