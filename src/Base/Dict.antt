-- ===== src/Base/Dict.antt =====
-- `HashMap` as an association list. The order of the list is the order of iteration, which the
-- program does not know.
use mathlib.Core.Path.{subst, subst₂}
use lanscope.Base.{
  ◌≡◌, refl, ◌≢◌, Option, none, some, List, [], ◌∷◌, arith, Eq, ◌==◌, ==_iff, if◌then◌else◌, All,
  Bool-cases, inl, inr, sym,
}

abbrev pub Dict {ℓ κ} : Type ℓ → Type κ → Type (ℓ ⊔ κ)
Dict K V = List (K × V)

module _ {ℓ κ} {K : Type ℓ} {V : Type κ} ⦃e : Eq K⦄ where
  unfoldable pub get : K → Dict K V → Option V
  get k [] = none
  get k ((j, v) ∷ m) = if j == k then some v else get k m

  unfoldable pub insert : K → V → Dict K V → Dict K V
  insert k v [] = (k, v) ∷ []
  insert k v ((j, w) ∷ m) = if j == k then (j, v) ∷ m else (j, w) ∷ insert k v m

  -- `if let Some(v) = map.get_mut(k) { *v = f(*v) }`
  unfoldable pub modify : K → (V → V) → Dict K V → Dict K V
  modify k f [] = []
  modify k f ((j, w) ∷ m) = if j == k then (j, f w) ∷ m else (j, w) ∷ modify k f m

  pub get-insert :
      (k j : K) (v : V) (m : Dict K V) → get j (insert k v m) ≡ (if k == j then some v else get j m)
  unfolding get insert
  get-insert k j v [] = refl
  get-insert k j v ((i, w) ∷ m) =
      ground (arith, ==_iff k j, ==_iff i k, ==_iff i j, get-insert k j v m)

  pub get-insert_self : (k : K) (v : V) (m : Dict K V) → get k (insert k v m) ≡ some v
  get-insert_self k v m = ground (arith, get-insert k k v m, ==_iff k k)

  pub insert-insert : (k : K) (v w : V) (m : Dict K V) → insert k v (insert k w m) ≡ insert k v m
  unfolding insert
  insert-insert k v w [] = ground (arith, ==_iff k k)
  insert-insert k v w ((i, u) ∷ m) = ground (arith, insert-insert k v w m)

  pub get-insert_ne : (k j : K) (v : V) (m : Dict K V) → k ≢ j → get j (insert k v m) ≡ get j m
  get-insert_ne k j v m h = ground (arith, get-insert k j v m, ==_iff k j)

  pub get-modify_ne : (k j : K) (f : V → V) (m : Dict K V) → k ≢ j → get j (modify k f m) ≡ get j m
  unfolding get modify
  get-modify_ne k j f [] h = refl
  get-modify_ne k j f ((i, w) ∷ m) h =
      ground (arith, ==_iff k j, ==_iff i k, ==_iff i j, get-modify_ne k j f m h)

  pub get-modify_self :
      (k : K) (f : V → V) (m : Dict K V) {v : V}
      → get k m ≡ some v
      → get k (modify k f m) ≡ some (f v)
  unfolding get modify
  get-modify_self k f [] h = cc
  get-modify_self k f ((i, w) ∷ m) {v} h = ground (arith, ==_iff i k, get-modify_self k f m {v = v})

  pub get-modify-none : (k : K) (f : V → V) (m : Dict K V) → get k m ≡ none → modify k f m ≡ m
  unfolding get modify
  get-modify-none k f [] h = refl
  get-modify-none k f ((i, w) ∷ m) h = ground (arith, ==_iff i k, get-modify-none k f m)

  -- Every entry of the map satisfies `P`.
  abbrev pub Entries {μ} : (K → V → Type μ) → Dict K V → Type μ
  Entries P = All (λ p. P p.0 p.1)

module _ {ℓ κ μ} {K : Type ℓ} {V : Type κ} ⦃e : Eq K⦄ (P : K → V → Type μ) where
  pub Entries-get : (k : K) (m : Dict K V) {v : V} → Entries P m → get k m ≡ some v → P k v
  unfolding get
  Entries-get k [] h g = cc
  Entries-get k ((i, w) ∷ m) {v} h g = elim (Bool-cases (i == k)) [
    | inl same ↦ let here : w ≡ v = ground arith in subst₂ P ((==_iff i k).0 same) here h.0
    | inr other ↦ Entries-get k m h.1 (ground arith)
  ]

  pub Entries-insert :
      (k : K) (v : V) (m : Dict K V) → P k v → Entries P m → Entries P (insert k v m)
  unfolding insert
  Entries-insert k v [] p h = (p, tt)
  Entries-insert k v ((i, w) ∷ m) p h = elim (Bool-cases (i == k)) [
    | inl same ↦ rw same (subst (λ j. P j v) (sym ((==_iff i k).0 same)) p, h.1)
    | inr other ↦ rw other (h.0, Entries-insert k v m p h.1)
  ]

  pub Entries-modify :
      (k : K) (f : V → V) (m : Dict K V)
      → ((v : V) → P k v → P k (f v))
      → Entries P m
      → Entries P (modify k f m)
  unfolding modify
  Entries-modify k f [] p h = tt
  Entries-modify k f ((i, w) ∷ m) p h = elim (Bool-cases (i == k)) [
    | inl same ↦
        let q = (==_iff i k).0 same in
        rw same (subst (λ j. P j (f w)) (sym q) (p w (subst (λ j. P j w) q h.0)), h.1)
    | inr other ↦ rw other (h.0, Entries-modify k f m p h.1)
  ]
