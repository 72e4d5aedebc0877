-- ===== src/Decode/Dns/Loop.antt =====
-- The reader ends: every label moves it on, and it fails at the end of the packet.
use Prim.Native.Nat.{bit_and}
use lanscope.Base.Text.{Bytes}
use lanscope.Base.{
  suc, nat_Eq, zero, slice?-le, arith, [], refl, inr, ◌∷◌, inl, get_elem?_of_length-le, ◌≡◌, ◌==◌,
  ◌+◌, slice?, get_elem?, ◌≤◌, Option-cases, Option, Bool-cases, ◌<◌, length, List, ℕ,
}
use lanscope.Decode.Dns.{
  all_printable, Round, fail, finish, pointer, label, round, round_at, read_label, continue,
  read_labels,
}

-- The position after a label lies beyond the one before it, and not beyond the packet.
abbrev Moves : ℕ → ℕ → Round → Type 0
Moves pos n fail = Unit
Moves pos n (finish next) = Unit
Moves pos n (pointer next) = Unit
Moves pos n (label s next) = (pos < next) × (next ≤ n)

read_label-Moves :
    (buf : Bytes) (k pos len : ℕ) → k < pos → Moves k (length buf) (read_label buf pos len)
unfolding read_label
read_label-Moves buf k pos len h = elim (Option-cases (slice? buf pos len)) [
  | inl short ↦ rw (short, Moves, read_label) tt
  | inr (s, found) ↦ elim (Bool-cases (all_printable s)) [
    | inl good ↦ rw (found, Moves, read_label) (rw good (omega arith, slice?-le buf pos len found))
    | inr bad ↦ rw (found, Moves, read_label) (rw bad tt)
  ]
]

round_at-Moves : (buf : Bytes) (pos len : ℕ) → Moves pos (length buf) (round_at buf pos len)
unfolding round_at
round_at-Moves buf pos len = elim (Bool-cases (len == 0)) [
  | inl end ↦ rw (end, Moves, round_at) tt
  | inr more ↦ elim (Bool-cases (bit_and len 0xC0 == 0)) [
    | inl plain ↦
        rw (more, plain, Moves, round_at) (read_label-Moves buf pos (pos + 1) len (omega arith))
    | inr top ↦ rw (more, top, Moves, round_at) tt
  ]
]

round-Moves : (buf : Bytes) (pos : ℕ) → Moves pos (length buf) (round buf pos)
unfolding round
round-Moves buf pos = elim (Option-cases (get_elem? buf pos)) [
  | inl past ↦ rw (past, Moves, round) tt
  | inr (len, here) ↦ rw (here, Moves, round) (round_at-Moves buf pos len)
]

round_past : (buf : Bytes) (pos : ℕ) → length buf ≤ pos → round buf pos ≡ fail
unfolding round
round_past buf pos h = rw (get_elem?_of_length-le buf pos h, round)

continue_cong :
    (pos n : ℕ) (r : Round) (labels : List Bytes) (k k' : ℕ → List Bytes → Option (Bytes × ℕ))
    → Moves pos n r
    → ((j : ℕ) (s : List Bytes) → pos < j → k j s ≡ k' j s)
    → continue r labels k ≡ continue r labels k'
unfolding continue
continue_cong pos n fail labels k k' m h = refl
continue_cong pos n (finish next) labels k k' m h = refl
continue_cong pos n (pointer next) [] k k' m h = refl
continue_cong pos n (pointer next) (s ∷ labels) k k' m h = refl
continue_cong pos n (label s next) labels k k' m h = h next _ m.0

-- Any two numbers of rounds that are at least the number of bytes left read the same name: the loop
-- ends by itself within that many rounds.
pub read_labels-fuel :
    (f g : ℕ) (buf : Bytes) (pos : ℕ) (labels : List Bytes)
    → length buf ≤ pos + f
    → length buf ≤ pos + g
    → read_labels f buf pos labels ≡ read_labels g buf pos labels
unfolding read_labels continue
read_labels-fuel zero zero buf pos labels hf hg = refl
read_labels-fuel zero (suc g) buf pos labels hf hg = rw (round_past buf pos (omega arith))
read_labels-fuel (suc f) zero buf pos labels hf hg = rw (round_past buf pos (omega arith))
read_labels-fuel (suc f) (suc g) buf pos labels hf hg =
    continue_cong pos (length buf) (round buf pos) labels (read_labels f buf) (read_labels g buf)
      (round-Moves buf pos) (λ j s lt. read_labels-fuel f g buf j s (omega arith) (omega arith))
