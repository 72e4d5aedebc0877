-- ===== src/Decode/Dns/Names.antt =====
-- Which names `extract_names` finds.
use lanscope.Base.Distinct.{
  Distinct-concat, contains-concat_self, contains-concat_of_contains, Distinct,
}
use lanscope.Base.Text.{Bytes}
use lanscope.Base.{
  ◌∷◌, All-append, none, inr, inl, zero, nat_Eq, list_Eq, arith, [], Bool-cases, ◌+◌, true, some,
  length, ◌≡◌, ◌<◌, suc, contains, Option, All, ℕ, List,
}
use native.Mathlib.Nat.{add-zero}
use lanscope.Decode.Dns.{read_name, is_interesting, keep_name, names_from, extract_names}

-- What is known of the names kept so far: they are interesting, and none stands twice.
abbrev IsInteresting : Bytes → Type 0
IsInteresting name = is_interesting name ≡ true

abbrev Kept : List Bytes → Type 0
Kept out = All IsInteresting out × Distinct out

keep_name-Kept : (out : List Bytes) (r : Option (Bytes × ℕ)) → Kept out → Kept (keep_name out r)
unfolding keep_name
keep_name-Kept out none h = h
keep_name-Kept out (some (name, next)) h = elim (Bool-cases (is_interesting name)) [
  | inl good ↦ elim (Bool-cases (contains out name)) [
    | inl old ↦ rw (good, old) h
    | inr new ↦
        rw (good, new)
          (
            All-append IsInteresting out (name ∷ []) h.0 (good, tt),
            Distinct-concat out name new h.1,
          )
  ]
  | inr dull ↦ rw dull h
]

names_from-Kept :
    (left : ℕ) (buf : Bytes) (pos : ℕ) (out : List Bytes)
    → Kept out
    → Kept (names_from left buf pos out)
unfolding names_from
names_from-Kept zero buf pos out h = h
names_from-Kept (suc left) buf pos out h =
    names_from-Kept left buf (pos + 1) _ (keep_name-Kept out (read_name buf pos) h)

-- The names found are interesting, and none is reported twice.
pub extract_names-Kept :
    (buf : Bytes)
    → All (λ name. is_interesting name ≡ true) (extract_names buf) × Distinct (extract_names buf)
unfolding extract_names
extract_names-Kept buf = names_from-Kept (length buf) buf 0 [] (tt, tt)

-- What is kept stays, and an interesting name is kept where it is read.
keep_name-contains :
    (out : List Bytes) (r : Option (Bytes × ℕ)) (a : Bytes)
    → contains out a ≡ true
    → contains (keep_name out r) a ≡ true
unfolding keep_name
keep_name-contains out none a h = h
keep_name-contains out (some (name, next)) a h =
    ground (arith, contains-concat_of_contains out name a)

keep_name-contains_self :
    (out : List Bytes) (name : Bytes) (next : ℕ)
    → is_interesting name ≡ true
    → contains (keep_name out (some (name, next))) name ≡ true
unfolding keep_name
keep_name-contains_self out name next h = ground (arith, contains-concat_self out name)

names_from-contains :
    (left : ℕ) (buf : Bytes) (pos : ℕ) (out : List Bytes) (a : Bytes)
    → contains out a ≡ true
    → contains (names_from left buf pos out) a ≡ true
unfolding names_from
names_from-contains zero buf pos out a h = h
names_from-contains (suc left) buf pos out a h =
    names_from-contains left buf (pos + 1) _ a (keep_name-contains out (read_name buf pos) a h)

names_from_complete :
    (left : ℕ) (buf : Bytes) (pos : ℕ) (out : List Bytes) (k : ℕ) (name : Bytes) (next : ℕ)
    → k < left
    → read_name buf (pos + k) ≡ some (name, next)
    → is_interesting name ≡ true
    → contains (names_from left buf pos out) name ≡ true
unfolding names_from
names_from_complete zero buf pos out k name next lt r h = absurd (omega arith)
names_from_complete (suc left) buf pos out zero name next lt r h =
    names_from-contains left buf (pos + 1) _ name
      (rw (rw add-zero at r) (keep_name-contains_self out name next h))
names_from_complete (suc left) buf pos out (suc k) name next lt r h =
    let shift : pos + suc k ≡ pos + 1 + k = omega arith in
    names_from_complete left buf (pos + 1) _ k name next (omega arith) (rw shift at r) h

-- Every interesting name that can be read at some offset of the packet is among those found.
pub extract_names_complete :
    (buf : Bytes) (pos : ℕ) (name : Bytes) (next : ℕ)
    → pos < length buf
    → read_name buf pos ≡ some (name, next)
    → is_interesting name ≡ true
    → contains (extract_names buf) name ≡ true
unfolding extract_names
extract_names_complete buf pos name next lt r h =
    let shift : pos ≡ 0 + pos = omega arith in
    names_from_complete (length buf) buf 0 [] pos name next lt (rw shift at r) h
