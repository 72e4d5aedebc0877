-- ===== src/Base/Decimal.antt =====
-- Decimal numerals: what `to_string` and `{}` print for unsigned integers.
use lanscope.Base.{
  length, ℕ, zero, suc, ◌+◌, ◌-◌, ◌*◌, ◌/◌, ◌%◌, ◌≤◌, ◌<◌, ◌≡◌, [], ◌∷◌, arith, ltb, if◌then◌else◌,
  ap, All,
}
use lanscope.Base.Text.{Bytes}

-- The digits of `n` in front of `acc`; every round divides by ten, so `n` rounds are enough.
digits_onto : ℕ → ℕ → Bytes → Bytes
digits_onto zero n acc = acc
digits_onto (suc fuel) n acc =
    let d = b'0' + n % 10 in
    let more = digits_onto fuel (n / 10) (d ∷ acc) in if ltb n 10 then d ∷ acc else more

unfoldable pub to_string : ℕ → Bytes
unfolding digits_onto
to_string n = digits_onto (suc n) n []

-- The number that a string of digits denotes, read on from `n`.
abbrev pub value_from : ℕ → Bytes → ℕ
value_from n [] = n
value_from n (c ∷ s) = value_from (n * 10 + (c - b'0')) s

abbrev pub IsDigit : ℕ → Type 0
IsDigit c = (b'0' ≤ c) × (c ≤ b'9')

digits_onto-value :
    (fuel n : ℕ) (acc : Bytes) → n < fuel → value_from 0 (digits_onto fuel n acc) ≡ value_from n acc
unfolding digits_onto
digits_onto-value zero n acc h = absurd (omega arith)
digits_onto-value (suc fuel) n acc h =
    ground (arith, digits_onto-value fuel (n / 10) ((b'0' + n % 10) ∷ acc))

digits_onto-digits :
    (fuel n : ℕ) (acc : Bytes) → All IsDigit acc → All IsDigit (digits_onto fuel n acc)
unfolding digits_onto
digits_onto-digits zero n acc h = h
digits_onto-digits (suc fuel) n acc h =
    ground (arith, digits_onto-digits fuel (n / 10) ((b'0' + n % 10) ∷ acc))

-- Reading the decimal numeral of `n` gives `n`.
pub value-to_string : (n : ℕ) → value_from 0 (to_string n) ≡ n
unfolding to_string
value-to_string n = digits_onto-value (suc n) n [] (omega arith)

pub to_string-digits : (n : ℕ) → All IsDigit (to_string n)
unfolding to_string
to_string-digits n = digits_onto-digits (suc n) n [] tt

pub to_string-injective : (m n : ℕ) → to_string m ≡ to_string n → m ≡ n
to_string-injective m n e = cc (value-to_string m, value-to_string n, ap (value_from 0) e)

-- The number has at most `k + 1` digits.
abbrev pub HasDigits : ℕ → ℕ → Type 0
HasDigits zero n = n < 10
HasDigits (suc k) n = HasDigits k (n / 10)

digits_onto-length :
    (k fuel n : ℕ) (acc : Bytes)
    → HasDigits k n
    → length (digits_onto fuel n acc) ≤ suc k + length acc
unfolding digits_onto
digits_onto-length k zero n acc h = omega arith
digits_onto-length zero (suc fuel) n acc h = ground (arith, h)
digits_onto-length (suc k) (suc fuel) n acc h =
    ground (arith, digits_onto-length k fuel (n / 10) ((b'0' + n % 10) ∷ acc) h)

pub to_string-length : (k n : ℕ) → HasDigits k n → length (to_string n) ≤ suc k
unfolding to_string
to_string-length k n h = omega (arith, digits_onto-length k (suc n) n [] h)
