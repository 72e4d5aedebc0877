-- ===== src/Base/Utf8.antt =====
-- UTF-8: `str::from_utf8`, `String::from_utf8_lossy`, and `trim`, as the standard library has them.
use mathlib.Core.List.{reverse}
use lanscope.Base.{
  ℕ, zero, suc, ◌-◌, ◌≡◌, refl, Bool, true, false, ◌&&◌, ◌||◌, [], ◌∷◌, arith, ltb, leb, ◌==◌,
  nat_Eq, if◌then◌else◌, All, not, ◌<◌,
}
use lanscope.Base.Text.{Bytes}

abbrev byte_at : Bytes → ℕ → ℕ
byte_at [] i = 0
byte_at (c ∷ s) zero = c
byte_at (c ∷ s) (suc i) = byte_at s i

abbrev between : ℕ → ℕ → ℕ → Bool
between lo hi c = leb lo c && leb c hi

abbrev is_cont : ℕ → Bool
is_cont = between 0x80 0xBF

-- What stands at the head of a text: a character of so many bytes, or an ill-formed run.
pub data Chunk : Type 0 where
  valid : ℕ → Chunk
  invalid : ℕ → Chunk

-- The range of the second byte of a sequence of three and of four, by the first byte.
abbrev second_of_three : ℕ → ℕ → Bool
second_of_three a b =
    if a == 0xE0 then between 0xA0 0xBF b else if a == 0xED then between 0x80 0x9F b else is_cont b

abbrev second_of_four : ℕ → ℕ → Bool
second_of_four a b =
    if a == 0xF0 then between 0x90 0xBF b else if a == 0xF4 then between 0x80 0x8F b else is_cont b

-- `s` is what follows the first byte `a`; past the end of the text a byte reads as zero.
pub chunk : ℕ → Bytes → Chunk
chunk a s =
    let b = byte_at s 0 in
    let c = byte_at s 1 in
    let d = byte_at s 2 in
    if ltb a 0x80
    then valid 1
    else if between 0xC2 0xDF a
    then (if is_cont b then valid 2 else invalid 1)
    else if between 0xE0 0xEF a
    then (if not (second_of_three a b) then invalid 1 else if is_cont c then valid 3 else invalid 2)
    else if between 0xF0 0xF4 a
    then (if not (second_of_four a b)
        then invalid 1
        else if not (is_cont c)
        then invalid 2
        else if is_cont d
        then valid 4
        else invalid 3)
    else invalid 1

-- The rest of a chunk that is being read: bytes to keep, or bytes to leave out.
pub data Pending : Type 0 where
  keep : ℕ → Pending
  skip : ℕ → Pending

valid_from : ℕ → Bytes → Bool
valid_from k [] = true
valid_from (suc k) (c ∷ s) = valid_from k s
valid_from zero (c ∷ s) = elim (chunk c s) [ valid n ↦ valid_from (n - 1) s | invalid n ↦ false ]

-- `str::from_utf8(s).is_ok()`
unfoldable pub is_utf8 : Bytes → Bool
unfolding valid_from chunk
is_utf8 = valid_from 0

lossy_from : Pending → Bytes → Bytes
lossy_from p [] = []
lossy_from (keep (suc k)) (c ∷ s) = c ∷ lossy_from (keep k) s
lossy_from (skip (suc k)) (c ∷ s) = lossy_from (skip k) s
lossy_from _ (c ∷ s) = elim (chunk c s) [
  | valid n ↦ c ∷ lossy_from (keep (n - 1)) s
  | invalid n ↦ 0xEF ∷ 0xBF ∷ 0xBD ∷ lossy_from (skip (n - 1)) s
]

-- `String::from_utf8_lossy(s)`: each ill-formed run becomes U+FFFD.
unfoldable pub from_utf8_lossy : Bytes → Bytes
unfolding lossy_from chunk
from_utf8_lossy = lossy_from (keep 0)

-- The characters with the property White_Space.
abbrev white_one : ℕ → Bool
white_one a = between 9 13 a || a == 32

abbrev white_two : ℕ → ℕ → Bool
white_two a b = a == 0xC2 && (b == 0x85 || b == 0xA0)

abbrev white_three : ℕ → ℕ → ℕ → Bool
white_three a b c =
    (a == 0xE1 && (b == 0x9A && c == 0x80))
    || ((a == 0xE2
          && (b == 0x80 && (between 0x80 0x8A c || (c == 0xA8 || (c == 0xA9 || c == 0xAF)))))
        || ((a == 0xE2 && (b == 0x81 && c == 0x9F)) || (a == 0xE3 && (b == 0x80 && c == 0x80))))

-- The length of the white space character at the head, or zero.
abbrev white_head : Bytes → ℕ
white_head s =
    let a = byte_at s 0 in
    let b = byte_at s 1 in
    let c = byte_at s 2 in
    if white_one a then 1 else if white_two a b then 2 else if white_three a b c then 3 else 0

-- The same at the head of a text that stands in reverse.
abbrev white_last : Bytes → ℕ
white_last s =
    let a = byte_at s 0 in
    let b = byte_at s 1 in
    let c = byte_at s 2 in
    if white_one a then 1 else if white_two b a then 2 else if white_three c b a then 3 else 0

drop_white : (Bytes → ℕ) → ℕ → Bytes → Bytes
drop_white head k [] = []
drop_white head (suc k) (c ∷ s) = drop_white head k s
drop_white head zero (c ∷ s) =
    let rest = drop_white head (head (c ∷ s) - 1) s in if head (c ∷ s) == 0 then c ∷ s else rest

-- `s.trim()`
unfoldable pub trim : Bytes → Bytes
unfolding drop_white
trim s = reverse (drop_white white_last 0 (reverse (drop_white white_head 0 s)))

drop_byte : ℕ → Bytes → Bytes
drop_byte b [] = []
drop_byte b (c ∷ s) = if c == b then drop_byte b s else c ∷ s

-- `s.trim_matches(c)` for an ASCII character
unfoldable pub trim_matches : ℕ → Bytes → Bytes
unfolding drop_byte
trim_matches b s = reverse (drop_byte b (reverse (drop_byte b s)))

abbrev pub IsAscii : Bytes → Type 0
IsAscii = All (λ c. c < 128)

-- ASCII is UTF-8, and is read as it stands.
pub is_utf8_of_ascii : (s : Bytes) → IsAscii s → is_utf8 s ≡ true
unfolding is_utf8
is_utf8_of_ascii [] h = refl
is_utf8_of_ascii (c ∷ s) h = ground (arith, is_utf8_of_ascii s h.1)

pub from_utf8_lossy_of_ascii : (s : Bytes) → IsAscii s → from_utf8_lossy s ≡ s
unfolding from_utf8_lossy
from_utf8_lossy_of_ascii [] h = refl
from_utf8_lossy_of_ascii (c ∷ s) h = ground (arith, from_utf8_lossy_of_ascii s h.1)
