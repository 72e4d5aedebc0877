-- ===== src/Base/Bits.antt =====
-- Masks of a byte as arithmetic, by evaluation of all 256 values.
use lanscope.Base.{
  inr, inl, ltb, Bool-cases, refl, nat_Eq, ◌*◌, ◌&&◌, zero, ◌/◌, ◌%◌, suc, arith, ==_iff, ◌≡◌, true,
  ◌==◌, ◌<◌, Bool, ℕ,
}
use Prim.Native.Nat.{bit_and}

-- Two functions agree at every value under a bound.
agree_below : ℕ → (ℕ → ℕ) → (ℕ → ℕ) → Bool
agree_below zero f g = true
agree_below (suc bound) f g = agree_below bound f g && f bound == g bound

-- An equation between two functions of a byte holds if it holds at each value.
agree_at :
    (bound : ℕ) (f g : ℕ → ℕ) → agree_below bound f g ≡ true → (v : ℕ) → v < bound → f v ≡ g v
unfolding agree_below
agree_at (suc bound) f g agree v below = elim (Bool-cases (ltb v bound)) [
  | inl lt ↦ agree_at bound f g (ground (arith, agree)) v (ground (arith, lt))
  | inr ge ↦
      let last : v ≡ bound = ground (arith, ge, below) in
      rw last (ground (arith, agree, ==_iff (f bound) (g bound)))
]
agree_at zero f g agree v below = absurd (omega (arith, below))

module _ (x : ℕ) (h : x < 256) where
  pub bit_and_0x01 : bit_and x 0x01 ≡ x % 2
  unfolding agree_below
  bit_and_0x01 = agree_at 256 (λ x. bit_and x 0x01) (λ x. x % 2) refl x h

  pub bit_and_0x02 : bit_and x 0x02 ≡ x / 2 % 2 * 2
  unfolding agree_below
  bit_and_0x02 = agree_at 256 (λ x. bit_and x 0x02) (λ x. x / 2 % 2 * 2) refl x h

  pub bit_and_0x0f : bit_and x 0x0f ≡ x % 16
  unfolding agree_below
  bit_and_0x0f = agree_at 256 (λ x. bit_and x 0x0f) (λ x. x % 16) refl x h

  pub bit_and_0xc0 : bit_and x 0xC0 ≡ x / 64 * 64
  unfolding agree_below
  bit_and_0xc0 = agree_at 256 (λ x. bit_and x 0xC0) (λ x. x / 64 * 64) refl x h
