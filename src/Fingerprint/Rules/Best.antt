-- ===== src/Fingerprint/Rules/Best.antt =====
-- The classification is the best rule that matches.
use mathlib.Core.Path.{subst}
use lanscope.Base.Text.{Bytes, contains_str}
use lanscope.Fingerprint.Rules.{
  classification, max_rule, rules, classify, matching, build_haystack, max_from, Rule,
}
use lanscope.Base.{
  All-imp, ap, sym, refl, some, none, Option, suc, get_elem?, if◌then◌else◌, [], inr, inl, ◌⊎◌, ltb,
  true, false, arith, Bool-cases, ◌≡◌, ◌∷◌, ◌≤◌, All, List, ℕ,
}
use mathlib.Core.Option
use lanscope.Registry.{Device}

abbrev pub Matches : Device → Rule → Type 0
Matches d r = contains_str (build_haystack d) r.needle ≡ true

-- No rule of the list that matches is more confident.
abbrev pub AtMost : Device → ℕ → List Rule → Type 0
AtMost d c = All (λ r. (contains_str (build_haystack d) r.needle ≡ false) ⊎ (r.confidence ≤ c))

-- What `max_by` returns is one of the rules, and none is more confident.
max_from-All :
    (P : Rule → Type 0) (best : Rule) (rs : List Rule) → P best → All P rs → P (max_from best rs)
unfolding max_from
max_from-All P best [] p h = p
max_from-All P best (r ∷ rs) p h = elim (Bool-cases (ltb r.confidence best.confidence)) [
  | inl less ↦ rw less (max_from-All P best rs p h.1)
  | inr not_less ↦ rw not_less (max_from-All P r rs h.0 h.1)
]

-- A bound of what `max_by` returns bounds every rule.
max_from-le :
    (best : Rule) (rs : List Rule) (m : ℕ)
    → (max_from best rs).confidence ≤ m
    → (best.confidence ≤ m) × All (λ r. r.confidence ≤ m) rs
unfolding max_from
max_from-le best [] m h = (h, tt)
max_from-le best (r ∷ rs) m h = elim (Bool-cases (ltb r.confidence best.confidence)) [
  | inl less ↦
      let (ge, others) =
        max_from-le best rs m
          (subst (λ b. (max_from (if b then best else r) rs).confidence ≤ m) less h) in
      (ge, (ground (arith, less, ge), others))
  | inr not_less ↦
      let (ge, others) =
        max_from-le r rs m
          (subst (λ b. (max_from (if b then best else r) rs).confidence ≤ m) not_less h) in
      (ground (arith, not_less, ge), (ge, others))
]

-- Every element stands at some position.
abbrev pub IsAt : {A : Type 0} → List A → A → Type 0
IsAt xs x = (i : ℕ) × (get_elem? xs i ≡ some x)

All-IsAt : {A : Type 0} (xs : List A) → All (IsAt xs) xs
All-IsAt [] = tt
All-IsAt (x ∷ xs) =
    ((0, refl), All-imp (IsAt xs) (IsAt (x ∷ xs)) (λ a at. (suc at.0, at.1)) xs (All-IsAt xs))

-- What is kept matches, and keeps what holds of every rule.
matching-All :
    (d : Device) (P : Rule → Type 0) (rs : List Rule)
    → All P rs
    → All (λ r. P r × Matches d r) (matching (build_haystack d) rs)
unfolding matching
matching-All d P [] h = tt
matching-All d P (r ∷ rs) h = elim (Bool-cases (contains_str (build_haystack d) r.needle)) [
  | inl hit ↦ rw hit ((h.0, hit), matching-All d P rs h.1)
  | inr miss ↦ rw miss (matching-All d P rs h.1)
]

-- What holds of every rule that is kept holds of every rule that matches.
unmatched_or :
    (d : Device) (P : Rule → Type 0) (rs : List Rule)
    → All P (matching (build_haystack d) rs)
    → All (λ r. (contains_str (build_haystack d) r.needle ≡ false) ⊎ P r) rs
unfolding matching
unmatched_or d P [] h = tt
unmatched_or d P (r ∷ rs) h = elim (Bool-cases (contains_str (build_haystack d) r.needle)) [
  | inl hit ↦
      let both =
        subst
          (λ b.
            All P
              (if b then r ∷ matching (build_haystack d) rs else matching (build_haystack d) rs))
          hit h in
      (inr both.0, unmatched_or d P rs both.1)
  | inr miss ↦
      let others =
        subst
          (λ b.
            All P
              (if b then r ∷ matching (build_haystack d) rs else matching (build_haystack d) rs))
          miss h in
      (inl miss, unmatched_or d P rs others)
]

-- No rule matches.
abbrev pub NoneMatches : Device → Type 0
NoneMatches d = All (λ r. contains_str (build_haystack d) r.needle ≡ false) rules

-- The rule stands in the table and matches, and no rule of the table that matches is more confident.
abbrev pub IsBest : Device → Rule → Type 0
IsBest d r = IsAt rules r × (Matches d r × AtMost d r.confidence rules)

unmatched : {P : Type 0} → P ⊎ ⊥ → P
unmatched (inl p) = p
unmatched (inr impossible) = elim impossible [ ]

classify-cases :
    (d : Device) (ms : List Rule)
    → matching (build_haystack d) rules ≡ ms
    → ((classify d ≡ none) × NoneMatches d)
      ⊎ ((r : Rule) × (classify d ≡ some (classification r)) × IsBest d r)
unfolding classify max_rule
classify-cases d [] h = inl (
  ap (λ xs. Option.map classification (max_rule xs)) h,
  All-imp (λ r. (contains_str (build_haystack d) r.needle ≡ false) ⊎ ⊥)
      (λ r. contains_str (build_haystack d) r.needle ≡ false) (λ r p. unmatched p) rules
      (unmatched_or d (λ r. ⊥) rules (subst (λ xs. All (λ r. ⊥) xs) (sym h) tt)),
)
classify-cases d (r ∷ ms) h =
    let kept =
      subst (λ xs. All (λ x. IsAt rules x × Matches d x) xs) h
        (matching-All d (IsAt rules) rules (All-IsAt rules)) in
    let best = max_from-All (λ x. IsAt rules x × Matches d x) r ms kept.0 kept.1 in
    let bound = max_from-le r ms (max_from r ms).confidence (omega arith) in
    inr (
      max_from r ms,
      ap (λ xs. Option.map classification (max_rule xs)) h,
      (
        best.0,
        (
          best.1,
          unmatched_or d (λ x. x.confidence ≤ (max_from r ms).confidence) rules
              (subst (λ xs. All (λ x. x.confidence ≤ (max_from r ms).confidence) xs) (sym h) bound),
        ),
      ),
    )

-- A device is left unclassified exactly when no rule of the table matches it; else it gets the
-- classification of a rule of the table that matches and has the greatest confidence of those.
pub classify-IsBest :
    (d : Device)
    → ((classify d ≡ none) × NoneMatches d)
      ⊎ ((r : Rule) × (classify d ≡ some (classification r)) × IsBest d r)
classify-IsBest d = classify-cases d (matching (build_haystack d) rules) refl

-- The type a device gets does not depend on its DHCP fingerprint.
pub classify_ignores_fingerprint :
    (d : Device) (fp : Option Bytes) → classify (record d { dhcp_fingerprint = fp }) ≡ classify d
unfolding classify build_haystack
classify_ignores_fingerprint d fp = refl
