-- ===== src/Netfmt.antt =====
-- lanscope/src/netfmt.rs: MAC and IPv4 texts, and times, where the calendar is the `time` crate and
-- a parameter.
pub mod RoundTrip
use lanscope.Base.Columns.{zero_padded}
use lanscope.Base.{
  ℕ, zero, suc, ◌+◌, ◌-◌, ◌*◌, ◌/◌, ◌%◌, ◌^◌, ◌&&◌, Option, none, some, Bool, List, [], ◌∷◌, ◌++◌,
  ◌>>=◌, ltb, leb, ◌==◌, nat_Eq, if◌then◌else◌,
}
use lanscope.Base.Text.{Bytes, split}
use lanscope.Base.Decimal.{to_string}
use lanscope.Common.{MacAddr}

hex_digit : ℕ → ℕ
hex_digit d = if ltb d 10 then b'0' + d else b'a' + (d - 10)

-- `{b:02x}` of a byte
hex_byte : ℕ → Bytes
unfolding hex_digit
hex_byte b = hex_digit (b / 16) ∷ hex_digit (b % 16) ∷ []

-- The loop of `fmt_mac` from index `i` on.
fmt_mac_from : ℕ → MacAddr → Bytes
unfolding hex_byte
fmt_mac_from i [] = []
fmt_mac_from i (b ∷ mac) =
    (if ltb 0 i then b':' ∷ [] else []) ++ (hex_byte b ++ fmt_mac_from (i + 1) mac)

unfoldable pub fmt_mac : MacAddr → Bytes
unfolding fmt_mac_from
fmt_mac = fmt_mac_from 0

-- `char::to_digit(16)`
hex_value : ℕ → Option ℕ
hex_value c =
    if leb b'0' c && leb c b'9'
    then some (c - b'0')
    else if leb b'a' c && leb c b'f'
    then some (c - b'a' + 10)
    else if leb b'A' c && leb c b'F'
    then some (c - b'A' + 10)
    else none

-- The digits after an accumulated value; `u8` overflows past 255.
hex_digits : ℕ → Bytes → Option ℕ
unfolding hex_value
hex_digits n [] = some n
hex_digits n (c ∷ s) = do
  d ← hex_value c
  if ltb 255 (n * 16 + d) then none else hex_digits (n * 16 + d) s

-- `u8::from_str_radix(s, 16).ok()`: an optional `+`, and at least one digit.
from_str_radix_16 : Bytes → Option ℕ
unfolding hex_digits
from_str_radix_16 [] = none
from_str_radix_16 (c ∷ []) = hex_digits 0 (c ∷ [])
from_str_radix_16 (c ∷ d ∷ s) = if c == b'+' then hex_digits 0 (d ∷ s) else hex_digits 0 (c ∷ d ∷ s)

-- `for slot in out.iter_mut()`: so many slots are filled; the pieces that are left come back.
parse_slots : ℕ → List Bytes → Option (MacAddr × List Bytes)
unfolding from_str_radix_16
parse_slots zero parts = some ([], parts)
parse_slots (suc k) [] = none
parse_slots (suc k) (p ∷ parts) = do
  b ← from_str_radix_16 p
  (mac, rest) ← parse_slots k parts
  some (b ∷ mac, rest)

-- `if parts.next().is_some() { return None; }`
no_more : MacAddr × List Bytes → Option MacAddr
no_more (mac, []) = some mac
no_more (mac, p ∷ parts) = none

unfoldable pub parse_mac : Bytes → Option MacAddr
unfolding parse_slots no_more
parse_mac s = do filled ← parse_slots 6 (split b':' [] s); no_more filled

-- `ip.to_be_bytes()[i]`
abbrev octet : ℕ → ℕ → ℕ
octet ip i = ip / 2 ^ (24 - 8 * i) % 256

unfoldable pub fmt_ipv4 : ℕ → Bytes
fmt_ipv4 ip =
    to_string (octet ip 0)
    ++ (b'.'
        ∷ (to_string (octet ip 1)
            ++ (b'.' ∷ (to_string (octet ip 2) ++ (b'.' ∷ to_string (octet ip 3))))))

-- `OffsetDateTime` of the library `time`, as far as it is read
pub record DateTime : Type 0 where
  pub year : ℕ
  pub month : ℕ
  pub day : ℕ
  pub hour : ℕ
  pub minute : ℕ
  pub second : ℕ

-- `fmt_ts`, where the calendar is `OffsetDateTime::from_unix_timestamp`
unfoldable pub fmt_ts : (ℕ → Option DateTime) → ℕ → Bytes
fmt_ts calendar unix_secs = elim (calendar unix_secs) [
  | some t ↦
      zero_padded 4 t.year
      ++ (b'-' ∷ zero_padded 2 t.month
          ++ (b'-' ∷ zero_padded 2 t.day
              ++ (b' ' ∷ zero_padded 2 t.hour
                  ++ (b':' ∷ zero_padded 2 t.minute ++ (b':' ∷ zero_padded 2 t.second)))))
  | none ↦ to_string unix_secs
]
