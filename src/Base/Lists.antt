-- ===== src/Base/Lists.antt =====
-- Lists measured and indexed by native numbers, under the library's names.
use Prim.Native.Nat.{ℕ, zero, suc, ◌+◌, ◌-◌, ◌≤◌, ◌<◌, min}
use mathlib.Core.Path.{◌≡◌, refl, ap}
use mathlib.Core.Bool.{Bool, true, false, ◌||◌}
use mathlib.Core.List.{List, [], ◌∷◌, ◌++◌, map}
use mathlib.Core.Option.{Option, none, some}
use native.Mathlib.Omega.{arith}
use native.Mathlib.Nat.{suc-add}
use lanscope.Base.Tests.{leb, le→leb, if◌then◌else◌}

-- A predicate on each element, which computes to a tuple.
abbrev pub All {ℓ κ} : {A : Type ℓ} → (A → Type κ) → List A → Type κ
All P [] = Unit
All P (x ∷ xs) = P x × All P xs

pub All-append {ℓ κ} :
    {A : Type ℓ} (P : A → Type κ) (xs ys : List A) → All P xs → All P ys → All P (xs ++ ys)
All-append P [] ys hx hy = hy
All-append P (x ∷ xs) ys hx hy = (hx.0, All-append P xs ys hx.1 hy)

pub All-imp {ℓ κ} :
    {A : Type ℓ} (P Q : A → Type κ) (f : (a : A) → P a → Q a) (xs : List A) → All P xs → All Q xs
All-imp P Q f [] h = tt
All-imp P Q f (x ∷ xs) h = (f x h.0, All-imp P Q f xs h.1)

pub All-if {ℓ κ} :
    {A : Type ℓ} (P : A → Type κ) (b : Bool) (xs ys : List A)
    → All P xs
    → All P ys
    → All P (if b then xs else ys)
All-if P true xs ys hx hy = hx
All-if P false xs ys hx hy = hy

module _ {ℓ} {A : Type ℓ} where
  abbrev pub length : List A → ℕ
  length [] = 0
  length (x ∷ xs) = suc (length xs)

  abbrev pub get_elem? : List A → ℕ → Option A
  get_elem? [] i = none
  get_elem? (x ∷ xs) zero = some x
  get_elem? (x ∷ xs) (suc i) = get_elem? xs i

  abbrev pub get_or : List A → ℕ → A → A
  get_or [] i d = d
  get_or (x ∷ xs) zero d = x
  get_or (x ∷ xs) (suc i) d = get_or xs i d

  abbrev pub take : ℕ → List A → List A
  take (suc count) (y ∷ ys) = y ∷ take count ys
  take (suc count) [] = []
  take zero ys = []

  abbrev pub drop : ℕ → List A → List A
  drop zero xs = xs
  drop (suc n) [] = []
  drop (suc n) (x ∷ xs) = drop n xs

  abbrev pub replicate : ℕ → A → List A
  replicate zero a = []
  replicate (suc n) a = a ∷ replicate n a

  abbrev pub any : (A → Bool) → List A → Bool
  any p [] = false
  any p (x ∷ xs) = p x || any p xs

  pub length-append : (xs ys : List A) → length (xs ++ ys) ≡ length xs + length ys
  length-append [] ys = omega arith
  length-append (x ∷ xs) ys = omega (arith, length-append xs ys)

  pub length-take : (n : ℕ) (xs : List A) → length (take n xs) ≡ min n (length xs)
  length-take zero xs = omega arith
  length-take (suc n) [] = omega arith
  length-take (suc n) (x ∷ xs) = omega (arith, length-take n xs)

  pub length-drop : (n : ℕ) (xs : List A) → length (drop n xs) ≡ length xs - n
  length-drop zero xs = omega arith
  length-drop (suc n) [] = omega arith
  length-drop (suc n) (x ∷ xs) = omega (arith, length-drop n xs)

  pub length-replicate : (n : ℕ) (a : A) → length (replicate n a) ≡ n
  length-replicate zero a = refl
  length-replicate (suc n) a = ap suc (length-replicate n a)

  pub drop-append : (xs ys : List A) → drop (length xs) (xs ++ ys) ≡ ys
  drop-append [] ys = refl
  drop-append (x ∷ xs) ys = drop-append xs ys

  pub take-append : (xs ys : List A) → take (length xs) (xs ++ ys) ≡ xs
  take-append [] ys = refl
  take-append (x ∷ xs) ys = ap (◌∷◌ x) (take-append xs ys)

  pub take_of_length-le : (count : ℕ) (ys : List A) → length ys ≤ count → take count ys ≡ ys
  take_of_length-le (suc count) (y ∷ ys) short =
      ap (λ zs. y ∷ zs) (take_of_length-le count ys (omega (arith, short)))
  take_of_length-le (suc count) [] short = refl
  take_of_length-le zero (y ∷ ys) short = absurd (omega (arith, short))
  take_of_length-le zero [] short = refl

-- `buf.get(i..i + n)`: the slice, if it lies in the buffer.
abbrev pub slice? {ℓ} : {A : Type ℓ} → List A → ℕ → ℕ → Option (List A)
slice? xs i n = if leb (i + n) (length xs) then some (take n (drop i xs)) else none

module _ {ℓ} {A : Type ℓ} where
  pub get_elem?-append_mid :
      (pre : List A) (x : A) (rest : List A) → get_elem? (pre ++ x ∷ rest) (length pre) ≡ some x
  get_elem?-append_mid [] x rest = refl
  get_elem?-append_mid (y ∷ pre) x rest = get_elem?-append_mid pre x rest

  pub get_elem?-lt : (xs : List A) (i : ℕ) {x : A} → get_elem? xs i ≡ some x → i < length xs
  get_elem?-lt [] i e = cc
  get_elem?-lt (y ∷ xs) zero e = omega arith
  get_elem?-lt (y ∷ xs) (suc i) e = omega (arith, get_elem?-lt xs i e)

  pub get_elem?_of_lt : (xs : List A) (i : ℕ) → i < length xs → (x : A) × (get_elem? xs i ≡ some x)
  get_elem?_of_lt [] i h = absurd (omega arith)
  get_elem?_of_lt (x ∷ xs) zero h = (x, refl)
  get_elem?_of_lt (x ∷ xs) (suc i) h = get_elem?_of_lt xs i (omega arith)

  pub slice?-append_mid :
      (pre mid rest : List A) → slice? (pre ++ (mid ++ rest)) (length pre) (length mid) ≡ some mid
  slice?-append_mid pre mid rest =
      rw (le→leb _ _ (slice_fits pre mid rest), drop-append pre (mid ++ rest), take-append mid rest)
    where
      slice_fits : (pre mid rest : List A) → length pre + length mid ≤ length (pre ++ (mid ++ rest))
      slice_fits pre mid rest =
          omega (arith, length-append pre (mid ++ rest), length-append mid rest)

  pub slice?-le :
      (xs : List A) (i n : ℕ) {ys : List A} → slice? xs i n ≡ some ys → i + n ≤ length xs
  slice?-le xs i n e = ground arith

  pub get_elem?_of_length-le : (xs : List A) (i : ℕ) → length xs ≤ i → get_elem? xs i ≡ none
  get_elem?_of_length-le [] i h = refl
  get_elem?_of_length-le (y ∷ xs) zero h = absurd (omega arith)
  get_elem?_of_length-le (y ∷ xs) (suc i) h = get_elem?_of_length-le xs i (omega arith)

module _ {ℓ} {A : Type ℓ} where
  pub get_elem?-append_offset :
      (pre xs : List A) (k : ℕ) → get_elem? (pre ++ xs) (length pre + k) ≡ get_elem? xs k
  get_elem?-append_offset [] xs k = ap (get_elem? xs) (omega arith)
  get_elem?-append_offset (y ∷ pre) xs k =
      rw (suc-add (length pre) k) (get_elem?-append_offset pre xs k)

  drop-append_offset : (pre xs : List A) (k : ℕ) → drop (length pre + k) (pre ++ xs) ≡ drop k xs
  drop-append_offset [] xs k = ap (λ n. drop n xs) (omega arith)
  drop-append_offset (y ∷ pre) xs k = rw (suc-add (length pre) k) (drop-append_offset pre xs k)

  pub slice?-append_offset :
      (pre xs : List A) (k n : ℕ) → slice? (pre ++ xs) (length pre + k) n ≡ slice? xs k n
  slice?-append_offset pre xs k n = rw drop-append_offset (
      ap (λ b. if b then some (take n (drop k xs)) else none)
        (ground (arith, length-append pre xs)))

pub length-map {ℓ κ} :
    {A : Type ℓ} {B : Type κ} (f : A → B) (xs : List A) → length (map f xs) ≡ length xs
length-map f [] = refl
length-map f (x ∷ xs) = ap suc (length-map f xs)

pub All-take {ℓ κ} :
    {A : Type ℓ} (P : A → Type κ) (n : ℕ) (xs : List A) → All P xs → All P (take n xs)
All-take P zero xs h = tt
All-take P (suc n) [] h = tt
All-take P (suc n) (x ∷ xs) h = (h.0, All-take P n xs h.1)

pub All-drop {ℓ κ} :
    {A : Type ℓ} (P : A → Type κ) (n : ℕ) (xs : List A) → All P xs → All P (drop n xs)
All-drop P zero xs h = h
All-drop P (suc n) [] h = tt
All-drop P (suc n) (x ∷ xs) h = All-drop P n xs h.1

pub take-append_add {ℓ} :
    {A : Type ℓ} (xs ys : List A) (n : ℕ) → take (length xs + n) (xs ++ ys) ≡ xs ++ take n ys
take-append_add [] ys n = ap (λ k. take k ys) (omega arith)
take-append_add (x ∷ xs) ys n =
    rw (suc-add (length xs) n) (ap (λ zs. x ∷ zs) (take-append_add xs ys n))

pub get_elem?-map {ℓ κ} :
    {A : Type ℓ} {B : Type κ} (f : A → B) (xs : List A) (i : ℕ) {x : A}
    → get_elem? xs i ≡ some x
    → get_elem? (map f xs) i ≡ some (f x)
get_elem?-map f [] i found = cc
get_elem?-map f (y ∷ ys) zero found = cc
get_elem?-map f (y ∷ ys) (suc i) found = get_elem?-map f ys i found
