-- ===== src/Decode/Dhcp/Loop.antt =====
-- The option walk ends: every round moves on, and stops at the end of the payload.
use lanscope.Decode.Defs.{Signal}
use lanscope.Base.Text.{Bytes}
use lanscope.Base.{
  suc, zero, get_elem?-lt, inr, inl, refl, get_elem?, get_elem?_of_length-le, Option-cases, ◌≡◌,
  ◌+◌, slice?-le, ◌≤◌, arith, ◌<◌, length, List, ℕ,
}
use lanscope.Decode.Dhcp.{
  continue, Round, stop, pad, option, option_data, option_body, round, options_loop,
}

-- The offset after a round lies beyond the one before it, and not beyond the payload.
abbrev Moves : ℕ → ℕ → Round → Type 0
Moves i n stop = Unit
Moves i n (pad j) = (i < j) × (j ≤ n)
Moves i n (option opt bytes j) = (i < j) × (j ≤ n)

option_data-Moves :
    (payload : Bytes) (opt i k len : ℕ)
    → k < i
    → Moves k (length payload) (option_data payload opt i len)
unfolding option_data
option_data-Moves payload opt i k len h = ground (arith, slice?-le payload i len)

option_body-Moves :
    (payload : Bytes) (opt i k : ℕ)
    → k < i
    → i ≤ length payload
    → Moves k (length payload) (option_body payload opt i)
unfolding option_body
option_body-Moves payload opt i k h fits =
    ground (arith, λ (len : ℕ). option_data-Moves payload opt (i + 1) k len)

pub round-Moves : (payload : Bytes) (i : ℕ) → Moves i (length payload) (round payload i)
unfolding round
round-Moves payload i = elim (Option-cases (get_elem? payload i)) [
  | inl past ↦ rw (past, Moves, round) tt
  | inr (opt, here) ↦
      let inside : i + 1 ≤ length payload = omega (arith, get_elem?-lt payload i here) in
      rw (here, Moves, round) (option_body-Moves payload opt (i + 1) i (omega arith) inside)
]

round_past : (payload : Bytes) (i : ℕ) → length payload ≤ i → round payload i ≡ stop
unfolding round
round_past payload i h = rw (get_elem?_of_length-le payload i h, round)

-- The rest of the loop is asked only about offsets further on.
continue_cong :
    (i n : ℕ) (r : Round) (signals : List Signal) (k k' : ℕ → List Signal → List Signal)
    → Moves i n r
    → ((j : ℕ) (s : List Signal) → i < j → k j s ≡ k' j s)
    → continue r signals k ≡ continue r signals k'
unfolding continue
continue_cong i n stop signals k k' m h = refl
continue_cong i n (pad j) signals k k' m h = h j signals m.0
continue_cong i n (option opt bytes j) signals k k' m h = h j _ m.0

-- Any two numbers of rounds that are at least the number of bytes left give the same signals: the
-- loop ends by itself within that many rounds.
pub options_loop-fuel :
    (f g : ℕ) (payload : Bytes) (i : ℕ) (signals : List Signal)
    → length payload ≤ i + f
    → length payload ≤ i + g
    → options_loop f payload i signals ≡ options_loop g payload i signals
unfolding options_loop
options_loop-fuel zero zero payload i signals hf hg = refl
options_loop-fuel zero (suc g) payload i signals hf hg = rw (round_past payload i (omega arith))
options_loop-fuel (suc f) zero payload i signals hf hg = rw (round_past payload i (omega arith))
options_loop-fuel (suc f) (suc g) payload i signals hf hg =
    continue_cong i (length payload) (round payload i) signals (options_loop f payload)
      (options_loop g payload) (round-Moves payload i)
      (λ j s lt. options_loop-fuel f g payload j s (omega arith) (omega arith))
