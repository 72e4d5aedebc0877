-- ===== src/Tui/Loop.antt =====
-- The loop of `run_blocking` of lanscope/src/tui/mod.rs, on what drawing, polling and reading yield in
-- each round.
pub mod Quits
pub mod Fits
use lanscope.Base.{
  ◌==◌, ◌⊎◌, inl, inr, nat_Eq, ℕ, Bool, true, false, Option, none, some, List, [], ◌∷◌,
  if◌then◌else◌,
}
use lanscope.Base.Text.{Bytes}
use lanscope.Error.{Error, Result, ok, err, io}
use lanscope.Tui.{move_selection, forward, backward}

-- The `KeyCode`s that the loop tells apart.
pub data KeyCode : Type 0 where
  char : ℕ → KeyCode
  esc down up other_key : KeyCode

-- An event of the terminal; the flag of a key says that it is pressed.
pub data TermEvent : Type 0 where
  key : Bool → KeyCode → TermEvent
  no_key : TermEvent

-- What a round meets: the error of drawing, or what the table widget makes of the selection; whether
-- the shutdown channel is closed or its flag set; what `poll` and `read` yield; and how many devices
-- the dashboard has then.
pub record Round : Type 0 where
  pub drawn : Bytes ⊎ (Option ℕ → Option ℕ)
  pub closing : Bool
  pub polled : Bytes ⊎ Bool
  pub event : Bytes ⊎ TermEvent
  pub len : ℕ

-- The loop goes on with a selection, or it ends.
pub data Next : Type 0 where
  goes_on : Option ℕ → Next
  ends : Result {0} Unit → Next

-- The `match` on the code of a key that is pressed.
unfoldable pub on_key : Option ℕ → ℕ → KeyCode → Next
unfolding move_selection
on_key selected len (char c) =
    if c == b'q'
    then ends (ok tt)
    else if c == b'j'
    then goes_on (move_selection selected (forward 1) len)
    else if c == b'k'
    then goes_on (move_selection selected (backward 1) len)
    else goes_on selected
on_key selected len esc = ends (ok tt)
on_key selected len down = goes_on (move_selection selected (forward 1) len)
on_key selected len up = goes_on (move_selection selected (backward 1) len)
on_key selected len other_key = goes_on selected

on_event : Option ℕ → ℕ → Bytes ⊎ TermEvent → Next
unfolding on_key
on_event selected len (inl e) = ends (err (io e))
on_event selected len (inr no_key) = goes_on selected
on_event selected len (inr (key false code)) = goes_on selected
on_event selected len (inr (key true code)) = on_key selected len code

on_poll : Option ℕ → Round → Bytes ⊎ Bool → Next
unfolding on_event
on_poll selected r (inl e) = ends (err (io e))
on_poll selected r (inr false) = goes_on selected
on_poll selected r (inr true) = on_event selected r.len r.event

after_draw : Option ℕ → Round → Bytes ⊎ (Option ℕ → Option ℕ) → Next
unfolding on_poll
after_draw selected r (inl e) = ends (err (io e))
after_draw selected r (inr widget) =
    if r.closing then ends (ok tt) else on_poll (widget selected) r r.polled

-- The body of the loop.
unfoldable pub round : Option ℕ → Round → Next
unfolding after_draw
round selected r = after_draw selected r r.drawn

-- What is selected in the end, and the result where the loop has one.
unfoldable pub ui_loop : Option ℕ → List Round → Option ℕ × Option (Result {0} Unit)
unfolding round
ui_loop selected [] = (selected, none)
ui_loop selected (r ∷ rounds) = elim (round selected r) [
  | goes_on next ↦ ui_loop next rounds
  | ends result ↦ (selected, some result)
]
