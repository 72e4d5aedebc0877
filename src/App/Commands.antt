-- ===== src/App/Commands.antt =====
-- The read-only commands of lanscope/src/app.rs, up to the text they print.
pub mod Table
pub mod Report
pub mod Exported
pub mod Shown
use mathlib.Core.Option
use lanscope.Base.Columns.{take_chars, chars}
use mathlib.Core.List.{append_assoc}
use lanscope.Base.Text.{Bytes}
use lanscope.Base.{
  ◌⊎◌, true, arith, Bool, ◌-◌, inr, take, refl, inl, nat_Eq, length, false, Bool-cases, ◌≡◌, ◌||◌,
  ◌==◌, leb, ◌∷◌, ◌++◌, ℕ, some, none, if◌then◌else◌, contains, [], Option, List,
}

-- `truncate`
unfoldable pub truncate : Bytes → ℕ → Bytes
truncate s max = if leb (chars s) max then s else take_chars (max - 1) s ++ 0xE2 ∷ 0x80 ∷ 0xA6 ∷ []

-- `s.replace('"', "\"\"")`
double_quotes : Bytes → Bytes
double_quotes [] = []
double_quotes (b ∷ s) = if b == 34 then 34 ∷ 34 ∷ double_quotes s else b ∷ double_quotes s

abbrev pub csv_text : Option Bytes → Bytes
csv_text none = []
csv_text (some s) = s

unfoldable pub csv : Option Bytes → Bytes
unfolding double_quotes
csv v =
    let s = csv_text v in
    if contains s 44 || contains s 34 then 34 ∷ double_quotes s ++ 34 ∷ [] else s

-- A reader of one field of a record: up to the comma or the end of the line, or up to the quote that
-- is not doubled. The flag says that a quote was read that is doubled or that closes the field.
read_quoted : Bool → Bytes → Option (Bytes × Bytes)
read_quoted false [] = none
read_quoted true [] = some ([], [])
read_quoted false (b ∷ s) =
    let closing = read_quoted true s in
    let more = read_quoted false s in
    if b == 34 then closing else Option.map (λ r. (b ∷ r.0, r.1)) more
read_quoted true (b ∷ s) =
    let more = read_quoted false s in
    if b == 34 then Option.map (λ r. (34 ∷ r.0, r.1)) more else some ([], b ∷ s)

-- A line feed or a carriage return, which ends a line outside of quotes.
abbrev pub has_break : Bytes → Bool
has_break s = contains s 10 || contains s 13

read_plain : Bytes → Bytes × Bytes
read_plain [] = ([], [])
read_plain (b ∷ s) =
    let r = read_plain s in if b == 44 || (b == 10 || b == 13) then ([], b ∷ s) else (b ∷ r.0, r.1)

unfoldable pub read_field : Bytes → Option (Bytes × Bytes)
unfolding read_quoted read_plain
read_field [] = some ([], [])
read_field (b ∷ s) = if b == 34 then read_quoted false s else some (read_plain (b ∷ s))

read_quoted-double_quotes :
    (s rest : Bytes) → read_quoted false (double_quotes s ++ 34 ∷ 44 ∷ rest) ≡ some (s, 44 ∷ rest)
unfolding read_quoted double_quotes
read_quoted-double_quotes [] rest = refl
read_quoted-double_quotes (b ∷ s) rest = elim (Bool-cases (b == 34)) [
  | inl quote ↦
      rw (quote, double_quotes, read_quoted, read_quoted-double_quotes s rest)
        (ground (arith, quote))
  | inr other ↦ rw (other, double_quotes, read_quoted, other, read_quoted-double_quotes s rest) refl
]

read_plain-append :
    (s rest : Bytes)
    → contains s 44 ≡ false
    → has_break s ≡ false
    → read_plain (s ++ 44 ∷ rest) ≡ (s, 44 ∷ rest)
unfolding read_plain
read_plain-append [] rest h l = refl
read_plain-append (b ∷ s) rest h l = ground (arith, h, l, read_plain-append s rest)

pub read_field-plain :
    (s rest : Bytes)
    → contains s 44 ≡ false
    → contains s 34 ≡ false
    → has_break s ≡ false
    → read_field (s ++ 44 ∷ rest) ≡ some (s, 44 ∷ rest)
unfolding read_field
read_field-plain [] rest h q l = refl
read_field-plain (b ∷ s) rest h q l = ground (arith, h, q, read_plain-append (b ∷ s) rest h l)

-- A text that is quoted, or that is one line.
abbrev pub IsOneLine : Bytes → Type 0
IsOneLine s = (contains s 44 || contains s 34 ≡ true) ⊎ (has_break s ≡ false)

-- A field that is written is read back up to the comma that follows it, unless it has a line break
-- and is not quoted.
pub csv-read :
    (v : Option Bytes) (rest : Bytes)
    → IsOneLine (csv_text v)
    → read_field (csv v ++ 44 ∷ rest) ≡ some (csv_text v, 44 ∷ rest)
unfolding csv read_field
csv-read v rest line = elim (Bool-cases (contains (csv_text v) 44 || contains (csv_text v) 34)) [
  | inl quoted ↦
      rw (quoted, append_assoc (double_quotes (csv_text v)) (34 ∷ []) (44 ∷ rest))
        (read_quoted-double_quotes (csv_text v) rest)
  | inr plain ↦ rw plain (
      read_field-plain (csv_text v) rest (ground (arith, plain)) (ground (arith, plain))
        (unbroken (csv_text v) line plain))
]
  where
    unbroken :
        (s : Bytes) → IsOneLine s → contains s 44 || contains s 34 ≡ false → has_break s ≡ false
    unbroken s (inl quoted) plain = cc
    unbroken s (inr whole) plain = whole
