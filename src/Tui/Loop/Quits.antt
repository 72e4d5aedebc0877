-- ===== src/Tui/Loop/Quits.antt =====
-- How the interface ends.
use lanscope.Base.{◌++◌, ◌≡◌, ◌⊎◌, inl, inr, ℕ, true, false, Option, some, List, [], ◌∷◌, refl}
use lanscope.Error.{Result, ok}
use lanscope.Tui.Loop.{char, esc, key, Round, Next, goes_on, ends, round, ui_loop}

-- A round that the user or the pipeline ends: it is drawn, and the shutdown channel is closed or its
-- flag set, or the key that is pressed is `q` or `Esc`.
pub data IsQuit (r : Round) : Type 0 where
  by_shutdown : (widget : Option ℕ → Option ℕ) → r.drawn ≡ inr widget → r.closing ≡ true → IsQuit r
  by_q :
      (widget : Option ℕ → Option ℕ)
      → r.drawn ≡ inr widget
      → r.closing ≡ false
      → r.polled ≡ inr true
      → r.event ≡ inr (key true (char b'q'))
      → IsQuit r
  by_esc :
      (widget : Option ℕ → Option ℕ)
      → r.drawn ≡ inr widget
      → r.closing ≡ false
      → r.polled ≡ inr true
      → r.event ≡ inr (key true esc)
      → IsQuit r

round_quits : (selected : Option ℕ) (r : Round) → IsQuit r → round selected r ≡ ends (ok tt)
unfolding round
round_quits selected r (by_shutdown w d c) = rw (d, c) refl
round_quits selected r (by_q w d c p e) = rw (d, c, p, e) refl
round_quits selected r (by_esc w d c p e) = rw (d, c, p, e) refl

pub Next-cases :
    (n : Next) → ((s : Option ℕ) × (n ≡ goes_on s)) ⊎ ((r : Result {0} Unit) × (n ≡ ends r))
Next-cases (goes_on s) = inl (s, refl)
Next-cases (ends r) = inr (r, refl)

-- In whatever rounds have come before, the loop ends at the latest in a round in which the user quits
-- or the shutdown flag is set, and nothing after that round matters.
pub ui_loop_quits :
    (selected : Option ℕ) (before after : List Round) (r : Round)
    → IsQuit r
    → (result : Result {0} Unit) × ((ui_loop selected (before ++ r ∷ after)).1 ≡ some result)
      × (ui_loop selected (before ++ r ∷ after) ≡ ui_loop selected (before ++ r ∷ []))
unfolding ui_loop
ui_loop_quits selected [] after r quit =
    rw (round_quits selected r quit, ui_loop) (ok tt, refl, refl)
ui_loop_quits selected (b ∷ before) after r quit = elim (Next-cases (round selected b)) [
  | inl (next, eq) ↦ rw (eq, ui_loop) (ui_loop_quits next before after r quit)
  | inr (result, eq) ↦ rw (eq, ui_loop) (result, refl, refl)
]
