-- ===== src/App/Commands/Exported.antt =====
-- What a reader of the CSV export gets back.
use lanscope.Base.{
  ◌>>=◌, nat_Eq, ◌++◌, ◌==◌, ◌≡◌, ℕ, zero, suc, false, length, contains, Option, none, some, List,
  [], ◌∷◌, if◌then◌else◌, refl, arith, All,
}
use lanscope.Base.Text.{Bytes, join, is_empty}
use lanscope.Base.Decimal.{to_string, to_string-digits, IsDigit}
use lanscope.Registry.{Device}
use lanscope.App.Commands.{
  has_break, IsOneLine, read_plain, csv, csv_text, csv-read, read_field, read_field-plain,
}
use lanscope.App.Commands.Table.{last}
use lanscope.App.Commands.Report.{csv_row, or_text}

-- The text after a comma.
abbrev after_comma : Bytes → Option Bytes
after_comma [] = none
after_comma (b ∷ s) = if b == 44 then some s else none

-- A reader of a line of so many fields and one more.
unfoldable pub read_row : ℕ → Bytes → Option (List Bytes)
read_row zero s = do r ← read_field s; if is_empty r.1 then some (r.0 ∷ []) else none
read_row (suc k) s = do
  r ← read_field s
  rest ← after_comma r.1
  fields ← read_row k rest
  some (r.0 ∷ fields)

-- No comma, no quote and no line break.
abbrev pub IsPlain : Bytes → Type 0
IsPlain s = (contains s 44 ≡ false) × (contains s 34 ≡ false) × (has_break s ≡ false)

read_row-step :
    (k : ℕ) (x t rest : Bytes) (fields : List Bytes)
    → read_field (x ++ 44 ∷ rest) ≡ some (t, 44 ∷ rest)
    → read_row k rest ≡ some fields
    → read_row (suc k) (x ++ 44 ∷ rest) ≡ some (t ∷ fields)
unfolding read_row
read_row-step k x t rest fields here there = rw (here, there) refl

read_row-plain :
    (k : ℕ) (x rest : Bytes) (fields : List Bytes)
    → IsPlain x
    → read_row k rest ≡ some fields
    → read_row (suc k) (x ++ 44 ∷ rest) ≡ some (x ∷ fields)
read_row-plain k x rest fields p =
    read_row-step k x x rest fields (read_field-plain x rest p.0 p.1 p.2)

read_row-csv :
    (k : ℕ) (v : Option Bytes) (rest : Bytes) (fields : List Bytes)
    → IsOneLine (csv_text v)
    → read_row k rest ≡ some fields
    → read_row (suc k) (csv v ++ 44 ∷ rest) ≡ some (csv_text v ∷ fields)
read_row-csv k v rest fields line =
    read_row-step k (csv v) (csv_text v) rest fields (csv-read v rest line)

digits-IsPlain : (s : Bytes) → All IsDigit s → IsPlain s
digits-IsPlain [] h = (refl, refl, refl)
digits-IsPlain (c ∷ s) h = ground (arith, h, digits-IsPlain s h.1)

to_string-IsPlain : (n : ℕ) → IsPlain (to_string n)
to_string-IsPlain n = digits-IsPlain (to_string n) (to_string-digits n)

read_plain-end : (s : Bytes) → contains s 44 ≡ false → has_break s ≡ false → read_plain s ≡ (s, [])
unfolding read_plain
read_plain-end [] h l = refl
read_plain-end (b ∷ s) h l = ground (arith, h, l, read_plain-end s)

read_field-end : (s : Bytes) → IsPlain s → read_field s ≡ some (s, [])
unfolding read_field
read_field-end [] p = refl
read_field-end (b ∷ s) p = ground (arith, p, read_plain-end (b ∷ s) p.0 p.2)

read_row-last : (s : Bytes) → IsPlain s → read_row 0 s ≡ some (s ∷ [])
unfolding read_row
read_row-last s p = rw (read_field-end s p) refl

-- Where the MAC and the address that is shown have no comma, no quote and no line break, and the vendor
-- and the name have no line break unless they have a comma or a quote too: the record of a device is
-- read back as its nine fields.
pub csv_row-read :
    (d : Device)
    → IsPlain d.mac
    → IsPlain (or_text (last d.ips) [])
    → IsOneLine (csv_text d.vendor)
    → IsOneLine (csv_text d.hostname)
    → read_row 8 (csv_row d)
      ≡ some (
          d.mac
          ∷ csv_text d.vendor
          ∷ csv_text d.hostname
          ∷ or_text (last d.ips) []
          ∷ to_string (length d.services)
          ∷ to_string d.packets
          ∷ to_string d.bytes
          ∷ to_string d.first_seen
          ∷ to_string d.last_seen
          ∷ [])
unfolding csv_row join
csv_row-read d mac ip vendor name = read_row-plain 7 d.mac _ _ mac (
    read_row-csv 6 d.vendor _ _ vendor (
      read_row-csv 5 d.hostname _ _ name (
        read_row-plain 4 (or_text (last d.ips) []) _ _ ip (
          read_row-plain 3 (to_string (length d.services)) _ _ (to_string-IsPlain _) (
            read_row-plain 2 (to_string d.packets) _ _ (to_string-IsPlain _) (
              read_row-plain 1 (to_string d.bytes) _ _ (to_string-IsPlain _) (
                read_row-plain 0 (to_string d.first_seen) _ _ (to_string-IsPlain _)
                  (read_row-last (to_string d.last_seen) (to_string-IsPlain _)))))))))
