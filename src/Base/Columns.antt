-- ===== src/Base/Columns.antt =====
-- Text in columns: characters of UTF-8, and what `{:<w}`, `{:>w}` and `{:0w}` print.
use lanscope.Base.{
  ℕ, zero, suc, ◌+◌, ◌-◌, ◌≤◌, ◌≡◌, Bool, not, ◌&&◌, [], ◌∷◌, ◌++◌, arith, leb, if◌then◌else◌,
  replicate, length, refl,
}
use lanscope.Base.Text.{Bytes}
use lanscope.Base.Decimal.{to_string}

-- The byte is not a continuation of a character.
abbrev pub starts_char : ℕ → Bool
starts_char c = not (leb 0x80 c && leb c 0xBF)

-- `s.chars().count()`
unfoldable pub chars : Bytes → ℕ
chars [] = 0
chars (c ∷ s) = if starts_char c then suc (chars s) else chars s

-- `s.chars().take(n).collect()`
unfoldable pub take_chars : ℕ → Bytes → Bytes
take_chars n [] = []
take_chars zero (c ∷ s) = let rest = take_chars zero s in if starts_char c then [] else c ∷ rest
take_chars (suc n) (c ∷ s) =
    let next = take_chars n s in
    let rest = take_chars (suc n) s in if starts_char c then c ∷ next else c ∷ rest

-- `{:<w}` and `{:>w}`
unfoldable pub pad_right : ℕ → Bytes → Bytes
unfolding chars
pad_right w s = s ++ replicate (w - chars s) 32

unfoldable pub pad_left : ℕ → Bytes → Bytes
unfolding chars
pad_left w s = replicate (w - chars s) 32 ++ s

-- `{:0w}` of a number
unfoldable pub zero_padded : ℕ → ℕ → Bytes
zero_padded w n = replicate (w - length (to_string n)) b'0' ++ to_string n

pub chars-append : (s t : Bytes) → chars (s ++ t) ≡ chars s + chars t
unfolding chars
chars-append [] t = omega arith
chars-append (c ∷ s) t = ground (arith, chars-append s t)

pub chars-spaces : (n : ℕ) → chars (replicate n 32) ≡ n
unfolding chars
chars-spaces zero = refl
chars-spaces (suc n) = omega (arith, chars-spaces n)

pub chars-pad_right : (w : ℕ) (s : Bytes) → chars s ≤ w → chars (pad_right w s) ≡ w
unfolding pad_right
chars-pad_right w s h =
    omega (arith, h, chars-append s (replicate (w - chars s) 32), chars-spaces (w - chars s))

pub chars-pad_left : (w : ℕ) (s : Bytes) → chars s ≤ w → chars (pad_left w s) ≡ w
unfolding pad_left
chars-pad_left w s h =
    omega (arith, h, chars-append (replicate (w - chars s) 32) s, chars-spaces (w - chars s))

pub chars-take_chars : (n : ℕ) (s : Bytes) → chars (take_chars n s) ≤ n
unfolding chars take_chars
chars-take_chars n [] = omega arith
chars-take_chars zero (c ∷ s) = ground (arith, chars-take_chars zero s)
chars-take_chars (suc n) (c ∷ s) = ground (arith, chars-take_chars n s, chars-take_chars (suc n) s)

pub chars-le : (s : Bytes) → chars s ≤ length s
unfolding chars
chars-le [] = omega arith
chars-le (c ∷ s) = ground (arith, chars-le s)
