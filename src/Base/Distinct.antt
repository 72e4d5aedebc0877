-- ===== src/Base/Distinct.antt =====
-- Lists in which no element stands twice, and what `contains` finds in them.
use lanscope.Base.{refl, ==_iff, arith, ◌||◌, true, false, [], ◌≡◌, ◌++◌, ◌∷◌, contains, List, Eq}

module _ {ℓ} {A : Type ℓ} ⦃e : Eq A⦄ where
  abbrev pub Distinct : List A → Type 0
  Distinct [] = Unit
  Distinct (x ∷ xs) = (contains xs x ≡ false) × Distinct xs

  pub contains-append :
      (xs ys : List A) (a : A) → contains (xs ++ ys) a ≡ (contains xs a || contains ys a)
  contains-append [] ys a = refl
  contains-append (x ∷ xs) ys a = ground (arith, contains-append xs ys a)

  pub contains-concat_self : (xs : List A) (a : A) → contains (xs ++ a ∷ []) a ≡ true
  contains-concat_self xs a = ground (arith, contains-append xs (a ∷ []) a, ==_iff a a)

  pub contains-concat_of_contains :
      (xs : List A) (a b : A) → contains xs b ≡ true → contains (xs ++ a ∷ []) b ≡ true
  contains-concat_of_contains xs a b h = ground (arith, contains-append xs (a ∷ []) b)

  pub Distinct-concat :
      (xs : List A) (a : A) → contains xs a ≡ false → Distinct xs → Distinct (xs ++ a ∷ [])
  Distinct-concat [] a h d = (refl, tt)
  Distinct-concat (x ∷ xs) a h d = (
    ground (arith, contains-append xs (a ∷ []) x, ==_iff a x, ==_iff x a),
    Distinct-concat xs a (ground arith) d.1,
  )
