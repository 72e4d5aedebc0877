-- ===== src/Base/Text.antt =====
-- Byte strings: what the program uses of `str` and `[u8]`, on the bytes of UTF-8.
use Prim.Native.Char.{code}
use lanscope.Base.{
  ℕ, ◌+◌, ◌-◌, String, Bool, true, false, ◌&&◌, ◌||◌, Option, none, some, List, [], ◌∷◌, ◌++◌, map,
  leb, ◌==◌, nat_Eq, list_Eq, if◌then◌else◌, length, take, drop,
}

abbrev pub Bytes : Type 0
Bytes = List ℕ

-- A byte string of the source that is ASCII: `String` has its own `[]` and `∷`.
abbrev pub codes : String → Bytes
codes String.[] = []
codes (String.◌∷◌ c s) = code c ∷ codes s

-- `s.starts_with(p)`, `s.ends_with(p)` and `s.contains(p)`
abbrev pub starts_with : Bytes → Bytes → Bool
starts_with s [] = true
starts_with [] (c ∷ p) = false
starts_with (d ∷ s) (c ∷ p) = d == c && starts_with s p

abbrev pub ends_with : Bytes → Bytes → Bool
ends_with s p = leb (length p) (length s) && drop (length s - length p) s == p

unfoldable pub contains_str : Bytes → Bytes → Bool
contains_str [] p = starts_with [] p
contains_str (c ∷ s) p = starts_with (c ∷ s) p || contains_str s p

-- `s.strip_suffix(p)`
abbrev pub strip_suffix : Bytes → Bytes → Option Bytes
strip_suffix s p = if ends_with s p then some (take (length s - length p) s) else none

-- `parts.join(sep)`
unfoldable pub join : Bytes → List Bytes → Bytes
join sep [] = []
join sep (x ∷ []) = x
join sep (x ∷ y ∷ xs) = x ++ (sep ++ join sep (y ∷ xs))

abbrev pub is_ascii_upper : ℕ → Bool
is_ascii_upper c = leb b'A' c && leb c b'Z'

abbrev pub is_ascii_lower : ℕ → Bool
is_ascii_lower c = leb b'a' c && leb c b'z'

-- `s.to_ascii_lowercase()` and `s.to_ascii_uppercase()`
unfoldable pub to_ascii_lowercase : Bytes → Bytes
to_ascii_lowercase = map (λ c. if is_ascii_upper c then c + 32 else c)

unfoldable pub to_ascii_uppercase : Bytes → Bytes
to_ascii_uppercase = map (λ c. if is_ascii_lower c then c - 32 else c)

-- `b.is_ascii_graphic()`
abbrev pub is_ascii_graphic : ℕ → Bool
is_ascii_graphic c = leb b'!' c && leb c b'~'

-- `s.is_empty()`
abbrev pub is_empty {ℓ} : {A : Type ℓ} → List A → Bool
is_empty [] = true
is_empty (x ∷ xs) = false

-- The pieces of `s.split(sep)`, at every occurrence of the byte; there is always one piece.
unfoldable pub split : ℕ → Bytes → Bytes → List Bytes
split sep piece [] = piece ∷ []
split sep piece (c ∷ s) =
    let at_sep = piece ∷ split sep [] s in
    let within = split sep (piece ++ c ∷ []) s in if c == sep then at_sep else within

-- `s.split_once(sep)`
unfoldable pub split_once : ℕ → Bytes → Option (Bytes × Bytes)
split_once sep [] = none
split_once sep (c ∷ s) =
    if c == sep
    then some ([], s)
    else elim (split_once sep s) [ none ↦ none | some (a, b) ↦ some (c ∷ a, b) ]
