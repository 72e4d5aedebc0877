-- ===== src/App/Commands/Table.antt =====
-- `cmd_list` of lanscope/src/app.rs.
use lanscope.Base.{
  refl, sym, ◌∙◌, ◌-◌, inr, inl, leb, Bool-cases, ◌<◌, ◌>>=◌, ◌++◌, ◌+◌, ◌≤◌, ◌≡◌, ℕ, Bool, length,
  map, replicate, Option, none, some, List, [], ◌∷◌, if◌then◌else◌, arith,
}
use lanscope.Base.Text.{codes, Bytes, is_empty}
use lanscope.Base.Decimal.{to_string-length, HasDigits, to_string}
use lanscope.Base.Columns.{
  chars-take_chars, take_chars, chars-le, chars, pad_left, pad_right, chars-append, chars-pad_left,
  chars-pad_right,
}
use lanscope.Netfmt.{DateTime, fmt_ts}
use lanscope.Registry.{max_services, Device}
use lanscope.Storage.{Store}
use lanscope.Tui.{sort_by_last_seen}
use lanscope.App.Commands.{truncate}

abbrev pub or_dash : Option Bytes → Bytes
or_dash none = codes "-"
or_dash (some s) = s

-- `ips.last()`
abbrev pub last : List Bytes → Option Bytes
last [] = none
last (x ∷ []) = some x
last (x ∷ y ∷ xs) = last (y ∷ xs)

-- `unwrap_or_default`: an error of `serde_json` prints an empty text.
unfoldable pub json_text : Option Bytes → Bytes
json_text none = []
json_text (some text) = text

-- The columns of a line of the table.
columns : Bytes → Bytes → Bytes → Bytes → Bytes → Bytes → Bytes
columns mac vendor hostname ip services last_seen =
    pad_right 18 mac
    ++ (32 ∷ pad_right 26 vendor
        ++ (32 ∷ pad_right 18 hostname
            ++ (32 ∷ pad_right 16 ip
                ++ (32 ∷ pad_left 5 services ++ (32 ∷ pad_right 19 last_seen)))))

unfoldable pub table_header : Bytes
unfolding columns
table_header =
    columns (codes "MAC") (codes "VENDOR") (codes "HOSTNAME") (codes "IP") (codes "SVCS")
      (codes "LAST SEEN")

abbrev pub separator : Bytes
separator = replicate 104 b'-'

module _ (calendar : ℕ → Option DateTime) where
  unfoldable pub device_row : Device → Bytes
  unfolding columns
  device_row d =
      columns d.mac (truncate (or_dash d.vendor) 26) (truncate (or_dash d.hostname) 18)
        (or_dash (last d.ips)) (to_string (length d.services)) (fmt_ts calendar d.last_seen)

  -- `print_device_table`: the lines that are printed
  unfoldable pub print_device_table : List Device → List Bytes
  unfolding table_header device_row
  print_device_table devices =
      table_header
      ∷ separator
      ∷ (map device_row devices ++ ([] ∷ (to_string (length devices) ++ codes " device(s).") ∷ []))

  listed : (List Device → Option Bytes) → Bool → List Device → List Bytes
  unfolding json_text print_device_table
  listed pretty json devices =
      if json
      then json_text (pretty devices) ∷ []
      else if is_empty devices
      then (codes "No devices yet "
          ++ (0xE2 ∷ 0x80 ∷ 0x94 ∷ codes " run `lanscope run` to start discovery."))
        ∷ []
      else print_device_table devices

  -- `cmd_list`, where `pretty` is `serde_json::to_string_pretty`, on a store that was opened; `None` where it cannot be opened or read
  unfoldable pub cmd_list :
      (st : Store) → (List Device → Option Bytes) → Bool → Option st.State → Option (List Bytes)
  unfolding listed
  cmd_list st pretty json opened = do
    store ← opened
    devices ← st.load_devices store
    some (listed pretty json (sort_by_last_seen devices))

chars-space : (t : Bytes) → chars (32 ∷ t) ≡ 1 + chars t
unfolding chars
chars-space t = omega arith

chars-column :
    (w : ℕ) (s rest : Bytes)
    → chars s ≤ w
    → chars (pad_right w s ++ (32 ∷ rest)) ≡ w + 1 + chars rest
chars-column w s rest h =
    omega (arith, chars-append (pad_right w s) (32 ∷ rest), chars-pad_right w s h, chars-space rest)

chars-columns :
    (mac vendor hostname ip services last_seen : Bytes)
    → chars mac ≤ 18
    → chars vendor ≤ 26
    → chars hostname ≤ 18
    → chars ip ≤ 16
    → chars services ≤ 5
    → chars last_seen ≤ 19
    → chars (columns mac vendor hostname ip services last_seen) ≡ 107
unfolding columns
chars-columns mac vendor hostname ip services last_seen a b c d e f =
    let end = 32 ∷ pad_right 19 last_seen in
    let from_ip = pad_right 16 ip ++ (32 ∷ pad_left 5 services ++ end) in
    let from_hostname = pad_right 18 hostname ++ (32 ∷ from_ip) in
    let from_vendor = pad_right 26 vendor ++ (32 ∷ from_hostname) in
    omega (
      arith,
      chars-column 18 mac from_vendor a,
      chars-column 26 vendor from_hostname b,
      chars-column 18 hostname from_ip c,
      chars-column 16 ip (pad_left 5 services ++ end) d,
      chars-append (pad_left 5 services) end,
      chars-pad_left 5 services e,
      chars-space (pad_right 19 last_seen),
      chars-pad_right 19 last_seen f,
    )

truncate-chars : (s : Bytes) (max : ℕ) → 0 < max → chars (truncate s max) ≤ max
unfolding truncate chars
truncate-chars s max h = elim (Bool-cases (leb (chars s) max)) [
  | inl short ↦ rw short (ground (arith, short))
  | inr long ↦ rw long (
      omega (
        arith,
        h,
        chars-append (take_chars (max - 1) s) (0xE2 ∷ 0x80 ∷ 0xA6 ∷ []),
        chars-take_chars (max - 1) s,
      ))
]

chars_of_length : (s : Bytes) (w : ℕ) → length s ≤ w → chars s ≤ w
chars_of_length s w h = omega (arith, chars-le s)

chars-table_header : chars table_header ≡ 107
unfolding table_header
chars-table_header =
    chars-columns (codes "MAC") (codes "VENDOR") (codes "HOSTNAME") (codes "IP") (codes "SVCS")
      (codes "LAST SEEN") (chars_of_length (codes "MAC") 18 (omega arith))
      (chars_of_length (codes "VENDOR") 26 (omega arith))
      (chars_of_length (codes "HOSTNAME") 18 (omega arith))
      (chars_of_length (codes "IP") 16 (omega arith))
      (chars_of_length (codes "SVCS") 5 (omega arith))
      (chars_of_length (codes "LAST SEEN") 19 (omega arith))

chars-separator : 107 ≡ chars separator + 3
unfolding chars
chars-separator = refl

-- Where the MAC has at most 18 characters, the address that is shown at most 16, the time at most 19
-- and there are no more services than a device may have, the row of a device has as many characters
-- as the header, however long its vendor and its name are. The separator below the header is three
-- characters shorter than both.
pub device_row-width :
    (calendar : ℕ → Option DateTime) (d : Device)
    → chars d.mac ≤ 18
    → chars (or_dash (last d.ips)) ≤ 16
    → length d.services ≤ max_services
    → chars (fmt_ts calendar d.last_seen) ≤ 19
    → (chars (device_row calendar d) ≡ chars table_header)
      × (chars table_header ≡ chars separator + 3)
unfolding device_row
device_row-width calendar d mac ip services time =
    let few : HasDigits 1 (length d.services) = omega arith in
    let numeral : chars (to_string (length d.services)) ≤ 5 = omega (
      arith,
      chars-le (to_string (length d.services)),
      to_string-length 1 (length d.services) few,
    ) in
    (
      chars-columns d.mac (truncate (or_dash d.vendor) 26) (truncate (or_dash d.hostname) 18)
            (or_dash (last d.ips)) (to_string (length d.services)) (fmt_ts calendar d.last_seen) mac
            (truncate-chars (or_dash d.vendor) 26 (omega arith))
            (truncate-chars (or_dash d.hostname) 18 (omega arith)) ip numeral time
          ∙ sym chars-table_header,
      chars-table_header ∙ chars-separator,
    )
