-- ===== src/App/Commands/Report.antt =====
-- `cmd_device`, `cmd_alerts` and `cmd_export` of lanscope/src/app.rs, and what `dispatch` makes of
-- the commands of lanscope/src/cli.rs. A command yields the lines it prints, or `None` where the
-- store cannot be opened or read.
use lanscope.Base.{
  ◌>>=◌, ◌++◌, ℕ, Bool, length, map, Option, none, some, List, [], ◌∷◌, if◌then◌else◌,
}
use lanscope.Base.Text.{codes, Bytes, is_empty, join, to_ascii_lowercase, to_ascii_uppercase}
use lanscope.Base.Decimal.{to_string}
use lanscope.Netfmt.{DateTime, fmt_ts}
use lanscope.Alert.{Alert, as_str}
use lanscope.Registry.{Device, label}
use lanscope.Storage.{Store}
use lanscope.Storage.Sqlite.Upsert.{find_device}
use lanscope.App.Config.{RunArgs}
use lanscope.App.Commands.{csv}
use lanscope.App.Commands.Table.{cmd_list, json_text, or_dash, last}

pub data ExportFormat : Type 0 where
  json csv_lines : ExportFormat

pub data Command : Type 0 where
  run : RunArgs → Command
  list : Bool → Command
  device : Bytes → Command
  alerts : ℕ → Command
  export : ExportFormat → Command

unfoldable pub or_text : Option Bytes → Bytes → Bytes
or_text none d = d
or_text (some s) d = s

ips_text : List Bytes → Bytes
ips_text ips = if is_empty ips then codes "-" else join (codes ", ") ips

services_lines : List Bytes → List Bytes
services_lines [] = codes "  services:     -" ∷ []
services_lines (s ∷ services) = codes "  services:" ∷ map (λ t. codes "    - " ++ t) (s ∷ services)

module _ (calendar : ℕ → Option DateTime) where
  unfoldable pub device_report : Device → List Bytes
  unfolding or_text ips_text services_lines
  device_report d =
      (codes "Device " ++ d.mac)
      ∷ (codes "  label:        " ++ label d)
      ∷ (codes "  vendor:       " ++ or_dash d.vendor)
      ∷ (codes "  hostname:     " ++ or_dash d.hostname)
      ∷ (codes "  device type:  " ++ or_text d.device_type (codes "(not yet inferred)"))
      ∷ (codes "  ips:          " ++ ips_text d.ips)
      ∷ (codes "  dhcp fp:      " ++ or_dash d.dhcp_fingerprint)
      ∷ (codes "  vendor class: " ++ or_dash d.dhcp_vendor_class)
      ∷ (codes "  traffic:      "
          ++ (to_string d.packets ++ (codes " pkts / " ++ (to_string d.bytes ++ codes " bytes"))))
      ∷ (codes "  first seen:   " ++ fmt_ts calendar d.first_seen)
      ∷ (codes "  last seen:    " ++ fmt_ts calendar d.last_seen)
      ∷ services_lines d.services

  unfoldable pub reported : Bytes → Option Device → List Bytes
  unfolding device_report
  reported mac none = (codes "No record for " ++ (mac ++ codes ".")) ∷ []
  reported mac (some d) = device_report d

  -- `cmd_device`
  unfoldable pub cmd_device : (st : Store) → Bytes → Option st.State → Option (List Bytes)
  unfolding reported
  cmd_device st mac opened = do
    store ← opened
    devices ← st.load_devices store
    some (reported mac (find_device (to_ascii_lowercase mac) devices))

  unfoldable pub alert_line : Alert → Bytes
  alert_line a =
      fmt_ts calendar a.ts
      ++ (codes " ["
          ++ (to_ascii_uppercase (as_str a.severity)
              ++ (codes "] "
                  ++ (or_dash a.mac
                      ++ (32 ∷ a.kind ++ (32 ∷ 0xE2 ∷ 0x80 ∷ 0x94 ∷ 32 ∷ a.message))))))

  alert_lines : List Alert → List Bytes
  unfolding alert_line
  alert_lines [] = codes "No alerts yet." ∷ []
  alert_lines (a ∷ batch) = map alert_line (a ∷ batch)

  -- `cmd_alerts`
  unfoldable pub cmd_alerts : (st : Store) → ℕ → Option st.State → Option (List Bytes)
  unfolding alert_lines
  cmd_alerts st limit opened = do
    store ← opened
    recent ← st.recent_alerts store limit
    some (alert_lines recent)

abbrev pub csv_header : Bytes
csv_header = codes "mac,vendor,hostname,ip,services,packets,bytes,first_seen,last_seen"

-- The line of a device in the export.
unfoldable pub csv_row : Device → Bytes
unfolding or_text
csv_row d = join (44 ∷ []) (
    d.mac
    ∷ csv d.vendor
    ∷ csv d.hostname
    ∷ or_text (last d.ips) []
    ∷ to_string (length d.services)
    ∷ to_string d.packets
    ∷ to_string d.bytes
    ∷ to_string d.first_seen
    ∷ to_string d.last_seen
    ∷ [])

-- `cmd_export`
exported : (List Device → Option Bytes) → ExportFormat → List Device → List Bytes
unfolding csv_row json_text
exported pretty json devices = json_text (pretty devices) ∷ []
exported pretty csv_lines devices = csv_header ∷ map csv_row devices

unfoldable pub cmd_export :
    (st : Store)
    → (List Device → Option Bytes)
    → ExportFormat
    → Option st.State
    → Option (List Bytes)
unfolding exported
cmd_export st pretty format opened = do
  store ← opened
  devices ← st.load_devices store
  some (exported pretty format devices)

-- `open_store`, where `opened` opens the store at a path
unfoldable pub open_store :
    (st : Store) → (Bytes → Option st.State) → Bytes → Option Bytes → Option st.State
unfolding or_text
open_store st opened default_db_path db = opened (or_text db default_db_path)

-- `dispatch`, where `opened` opens the store at a path and `capture` is the command that runs the
-- capture.
unfoldable pub dispatch :
    (st : Store)
    → (ℕ → Option DateTime)
    → (List Device → Option Bytes)
    → (Bytes → Option st.State)
    → Bytes
    → (RunArgs → Option Bytes → Option (List Bytes))
    → Option Bytes
    → Command
    → Option (List Bytes)
dispatch st calendar pretty opened default_db_path capture db (run args) = capture args db
dispatch st calendar pretty opened default_db_path capture db (list as_json) =
    cmd_list calendar st pretty as_json (open_store st opened default_db_path db)
dispatch st calendar pretty opened default_db_path capture db (device mac) =
    cmd_device calendar st mac (open_store st opened default_db_path db)
dispatch st calendar pretty opened default_db_path capture db (alerts limit) =
    cmd_alerts calendar st limit (open_store st opened default_db_path db)
dispatch st calendar pretty opened default_db_path capture db (export format) =
    cmd_export st pretty format (open_store st opened default_db_path db)
