-- ===== src/Storage/Sqlite.antt =====
-- lanscope/src/storage/sqlite.rs: the tables and what the statements do to them. `serde_json` is a
-- parameter: how it writes a list of texts, and how it reads one.
pub mod Upsert
pub mod Recent
pub mod Failing
pub mod Open
use lanscope.Alert.{as_str, from_str}
use lanscope.Storage.{Store}
use lanscope.Registry.{Device}
use lanscope.Base.Text.{codes, Bytes}
use lanscope.Base.{
  nat_Eq, list_Eq, ◌==◌, ◌-◌, true, take, none, ltb, leb, ◌∷◌, ◌^◌, some, map, if◌then◌else◌, [], ℕ,
  Option, List,
}
use lanscope.Alert.{info, new_alert, Severity, Alert}

-- `i64`: a number, or the negative of one more than a number
pub data ℤ : Type 0 where
  pos negsuc : ℕ → ℤ

-- `n as i64` and `n as u64`
unfoldable pub as_i64 : ℕ → ℤ
as_i64 n = if ltb n (2 ^ 63) then pos n else negsuc (2 ^ 64 - 1 - n)

unfoldable pub as_u64 : ℤ → ℕ
as_u64 (pos n) = n
as_u64 (negsuc n) = 2 ^ 64 - 1 - n

pub record DeviceRow : Type 0 where
  pub mac : Bytes
  pub vendor : Option Bytes
  pub hostname : Option Bytes
  pub ips : Bytes
  pub services : Bytes
  pub dhcp_fingerprint : Option Bytes
  pub dhcp_vendor_class : Option Bytes
  pub device_type : Option Bytes
  pub first_seen : ℕ
  pub last_seen : ℕ
  pub packets : ℤ
  pub bytes : ℤ

pub record AlertRow : Type 0 where
  pub ts : ℕ
  pub mac : Option Bytes
  pub severity : Bytes
  pub kind : Bytes
  pub message : Bytes

-- The rows of the devices, and those of the alerts with the greatest `id` first.
pub record Tables : Type 0 where
  pub devices : List DeviceRow
  pub alerts : List AlertRow

-- `INSERT … ON CONFLICT(mac) DO UPDATE SET …`, which leaves `first_seen`
unfoldable pub upsert_row : DeviceRow → List DeviceRow → List DeviceRow
upsert_row excluded [] = excluded ∷ []
upsert_row excluded (row ∷ rows) =
    let rest = upsert_row excluded rows in
    if row.mac == excluded.mac
    then record excluded { first_seen = row.first_seen } ∷ rows
    else row ∷ rest

insert_ts : AlertRow → List AlertRow → List AlertRow
insert_ts a [] = a ∷ []
insert_ts a (b ∷ rows) =
    let rest = insert_ts a rows in if leb b.ts a.ts then a ∷ b ∷ rows else b ∷ rest

-- `ORDER BY ts DESC, id DESC`
unfoldable pub order_by_ts : List AlertRow → List AlertRow
unfolding insert_ts
order_by_ts [] = []
order_by_ts (a ∷ rows) = insert_ts a (order_by_ts rows)

unwrap_severity : Option Severity → Severity
unwrap_severity none = info
unwrap_severity (some s) = s

alert_of_row : AlertRow → Alert
unfolding unwrap_severity
alert_of_row row =
    new_alert row.ts row.mac (unwrap_severity (from_str row.severity)) row.kind row.message

unfoldable pub row_of_alert : Alert → AlertRow
row_of_alert a = record {
  ts = a.ts;
  mac = a.mac;
  severity = as_str a.severity;
  kind = a.kind;
  message = a.message;
}

unfoldable pub record_alert : Tables → Alert → Tables
unfolding row_of_alert
record_alert db a = record db { alerts = row_of_alert a ∷ db.alerts }

unfoldable pub recent_alerts : Tables → ℕ → List Alert
unfolding order_by_ts alert_of_row
recent_alerts db limit = map alert_of_row (take limit (order_by_ts db.alerts))

-- `serde_json`, on lists of texts
pub record Json : Type 0 where
  pub to_string : List Bytes → Option Bytes
  pub from_string : Bytes → Option (List Bytes)

unwrap_or : {A : Type 0} → Option A → A → A
unwrap_or none d = d
unwrap_or (some a) d = a

module _ (json : Json) where
  unfoldable pub row_of : Device → DeviceRow
  unfolding unwrap_or
  row_of d = record {
    mac = d.mac;
    vendor = d.vendor;
    hostname = d.hostname;
    ips = unwrap_or (json.to_string d.ips) (codes "[]");
    services = unwrap_or (json.to_string d.services) (codes "[]");
    dhcp_fingerprint = d.dhcp_fingerprint;
    dhcp_vendor_class = d.dhcp_vendor_class;
    device_type = d.device_type;
    first_seen = d.first_seen;
    last_seen = d.last_seen;
    packets = as_i64 d.packets;
    bytes = as_i64 d.bytes;
  }

  unfoldable pub device_of : DeviceRow → Device
  unfolding unwrap_or
  device_of row = record {
    mac = row.mac;
    vendor = row.vendor;
    hostname = row.hostname;
    ips = unwrap_or (json.from_string row.ips) [];
    services = unwrap_or (json.from_string row.services) [];
    dhcp_fingerprint = row.dhcp_fingerprint;
    dhcp_vendor_class = row.dhcp_vendor_class;
    device_type = row.device_type;
    first_seen = row.first_seen;
    last_seen = row.last_seen;
    packets = as_u64 row.packets;
    bytes = as_u64 row.bytes;
  }

  unfoldable pub load_devices : Tables → List Device
  unfolding device_of
  load_devices db = map device_of db.devices

  unfoldable pub upsert_device : Tables → Device → Tables
  unfolding upsert_row row_of
  upsert_device db d = record db { devices = upsert_row (row_of d) db.devices }

  -- The trait, where no statement fails.
  abbrev pub sqlite_store : Store
  sqlite_store = record {
    State = Tables;
    load_devices = λ db. some (load_devices db);
    upsert_device = λ db d. (upsert_device db d, true);
    record_alert = λ db a. (record_alert db a, true);
    recent_alerts = λ db limit. some (recent_alerts db limit);
  }
