-- ===== src/Tui/Content.antt =====
-- The text that lanscope/src/tui/mod.rs draws. Layout, colours and borders are left out; a line is
-- the texts of its spans, one after the other.
pub mod Detail
use lanscope.Base.{
  ◌>>=◌, ◌++◌, ◌+◌, ℕ, Bool, true, false, length, map, take, get_elem?, Option, none, some, List,
  [], ◌∷◌, if◌then◌else◌,
}
use lanscope.Base.Text.{codes, Bytes, is_empty, join}
use lanscope.Base.Decimal.{to_string}
use lanscope.Base.Columns.{pad_right}
use lanscope.Netfmt.{DateTime, fmt_ts}
use lanscope.Alert.{Alert, Severity, info, warning, critical, as_str}
use lanscope.Registry.{Device}
use lanscope.Tui.{Dashboard}

abbrev pub em_dash : Bytes
em_dash = 0xE2 ∷ 0x80 ∷ 0x94 ∷ []

or_em_dash : Option Bytes → Bytes
or_em_dash none = em_dash
or_em_dash (some s) = s

last_of : List Bytes → Option Bytes
last_of [] = none
last_of (x ∷ []) = some x
last_of (x ∷ y ∷ xs) = last_of (y ∷ xs)

or_else : Option Bytes → Option Bytes → Option Bytes
or_else none other = other
or_else (some s) other = some s

-- `a.severity != Severity::Info`
is_warning : Severity → Bool
is_warning info = false
is_warning warning = true
is_warning critical = true

unfoldable pub count_warnings : List Alert → ℕ
unfolding is_warning
count_warnings [] = 0
count_warnings (a ∷ alerts) =
    let rest = count_warnings alerts in if is_warning a.severity then 1 + rest else rest

-- `render_header`
unfoldable pub header_line : Dashboard → Bytes
unfolding count_warnings
header_line dash =
    codes " lanscope "
    ++ (codes "  backend: "
        ++ (dash.backend
            ++ (codes "  mode: "
                ++ (dash.mode
                    ++ (codes "  devices: "
                        ++ (to_string (length dash.devices)
                            ++ (codes "  alerts: "
                                ++ (to_string (length dash.alerts)
                                    ++ (codes " ("
                                        ++ (to_string (count_warnings dash.alerts)
                                            ++ codes " warn+)"))))))))))

-- `render_devices`: the cells of the row of a device, and the title of the table
unfoldable pub device_cells : Device → List Bytes
unfolding or_em_dash last_of or_else
device_cells d =
    d.mac
    ∷ or_em_dash d.device_type
    ∷ or_em_dash (or_else d.hostname d.vendor)
    ∷ or_em_dash (last_of d.ips)
    ∷ []

unfoldable pub devices_title : Dashboard → Bytes
devices_title dash = codes " Devices (" ++ (to_string (length dash.devices) ++ codes ") ")

-- `kv`
unfoldable pub kv : Bytes → Bytes → Bytes
kv key value = pad_right 11 key ++ value

service_lines : List Bytes → List Bytes
service_lines [] = []
service_lines (s ∷ services) =
    codes "Services:" ∷ map (λ t. 32 ∷ 32 ∷ 0xE2 ∷ 0x80 ∷ 0xA2 ∷ 32 ∷ t) (take 6 (s ∷ services))

module _ (calendar : ℕ → Option DateTime) where
  unfoldable pub device_detail : Device → List Bytes
  unfolding or_em_dash kv service_lines
  device_detail d =
      kv (codes "MAC") d.mac
      ∷ kv (codes "Type") (or_em_dash d.device_type)
      ∷ kv (codes "Vendor") (or_em_dash d.vendor)
      ∷ kv (codes "Hostname") (or_em_dash d.hostname)
      ∷ kv (codes "IPs") (if is_empty d.ips then em_dash else join (codes ", ") d.ips)
      ∷ kv (codes "DHCP fp") (or_em_dash d.dhcp_fingerprint)
      ∷ kv (codes "Traffic")
          (to_string d.packets ++ (codes " pkts / " ++ (to_string d.bytes ++ codes " bytes")))
      ∷ kv (codes "First seen") (fmt_ts calendar d.first_seen)
      ∷ kv (codes "Last seen") (fmt_ts calendar d.last_seen)
      ∷ service_lines d.services

  selected_device : Dashboard → Option ℕ → Option Device
  selected_device dash selected = do i ← selected; get_elem? dash.devices i

  detail_of : Option Device → List Bytes
  unfolding device_detail
  detail_of none = codes "No device selected." ∷ []
  detail_of (some d) = device_detail d

  -- `render_detail`
  unfoldable pub detail_lines : Dashboard → Option ℕ → List Bytes
  unfolding selected_device detail_of
  detail_lines dash selected = detail_of (selected_device dash selected)

  -- `render_alerts`: the line of an alert, and the title of the list
  unfoldable pub alert_item : Alert → Bytes
  alert_item a =
      fmt_ts calendar a.ts ++ (32 ∷ codes "[" ++ (as_str a.severity ++ (codes "] " ++ a.message)))

unfoldable pub alerts_title : Dashboard → Bytes
alerts_title dash = codes " Alerts (" ++ (to_string (length dash.alerts) ++ codes ") ")
