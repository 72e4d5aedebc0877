-- ===== src/Tui/Loop/Fits.antt =====
-- What a round leaves selected.
use lanscope.Tui.Feed.{move_selection-InRange, InRange}
use lanscope.Tui.{backward, move_selection, forward, Delta}
use lanscope.Base.Text.{Bytes}
use lanscope.Base.{
  ◌≤◌, arith, nat_Eq, true, false, Bool, ◌==◌, ◌<◌, ◌≡◌, ◌⊎◌, inl, inr, Option, none, some,
  Bool-cases, ℕ,
}
use lanscope.Tui.Loop.{
  char, esc, down, up, other_key, key, no_key, Round, Next, goes_on, ends, KeyCode, TermEvent,
  on_key, on_event, on_poll, after_draw, round,
}

-- The first row, which is selected before there is any device, or a row of the table.
abbrev pub Fits : Option ℕ → ℕ → Type 0
Fits none len = Unit
Fits (some i) len = (i ≡ 0) ⊎ (i < len)

abbrev pub NextFits : Next → ℕ → Type 0
NextFits (goes_on selected) len = Fits selected len
NextFits (ends result) len = Unit

pub Fits-le : (row : Option ℕ) (few more : ℕ) → few ≤ more → Fits row few → Fits row more
Fits-le none few more le h = tt
Fits-le (some i) few more le (inl first) = inl first
Fits-le (some i) few more le (inr within) = inr (omega (arith, le, within))

-- The table widget keeps to the rows of the table.
abbrev pub KeepsToRows : Bytes ⊎ (Option ℕ → Option ℕ) → ℕ → Type 0
KeepsToRows (inl e) len = Unit
KeepsToRows (inr widget) len =
    (selected : Option ℕ) → Fits selected len → Fits (widget selected) len

InRange-Fits : (selected : Option ℕ) (len : ℕ) → InRange selected len → Fits selected len
InRange-Fits none len h = tt
InRange-Fits (some i) len h = inr h

moved-Fits :
    (selected : Option ℕ) (delta : Delta) (len : ℕ) → Fits (move_selection selected delta len) len
moved-Fits selected delta len =
    InRange-Fits (move_selection selected delta len) len
      (move_selection-InRange selected delta len).0

on_key-Fits :
    (selected : Option ℕ) (len : ℕ) (code : KeyCode)
    → Fits selected len
    → NextFits (on_key selected len code) len
unfolding on_key
on_key-Fits selected len (char c) h = elim (Bool-cases (c == b'q')) [
  | inl quit ↦ rw quit tt
  | inr not_q ↦ elim (Bool-cases (c == b'j')) [
    | inl down_key ↦ rw (not_q, down_key) (moved-Fits selected (forward 1) len)
    | inr not_j ↦ elim (Bool-cases (c == b'k')) [
      | inl up_key ↦ rw (not_q, not_j, up_key) (moved-Fits selected (backward 1) len)
      | inr no_move ↦ rw (not_q, not_j, no_move) h
    ]
  ]
]
on_key-Fits selected len esc h = tt
on_key-Fits selected len down h = moved-Fits selected (forward 1) len
on_key-Fits selected len up h = moved-Fits selected (backward 1) len
on_key-Fits selected len other_key h = h

on_event-Fits :
    (selected : Option ℕ) (len : ℕ) (event : Bytes ⊎ TermEvent)
    → Fits selected len
    → NextFits (on_event selected len event) len
unfolding on_event
on_event-Fits selected len (inl e) h = tt
on_event-Fits selected len (inr no_key) h = h
on_event-Fits selected len (inr (key false code)) h = h
on_event-Fits selected len (inr (key true code)) h = on_key-Fits selected len code h

on_poll-Fits :
    (selected : Option ℕ) (r : Round) (polled : Bytes ⊎ Bool)
    → Fits selected r.len
    → NextFits (on_poll selected r polled) r.len
unfolding on_poll
on_poll-Fits selected r (inl e) h = tt
on_poll-Fits selected r (inr false) h = h
on_poll-Fits selected r (inr true) h = on_event-Fits selected r.len r.event h

after_draw-Fits :
    (selected : Option ℕ) (r : Round) (drawn : Bytes ⊎ (Option ℕ → Option ℕ)) (rows : ℕ)
    → rows ≤ r.len
    → Fits selected rows
    → KeepsToRows drawn rows
    → NextFits (after_draw selected r drawn) r.len
unfolding after_draw
after_draw-Fits selected r (inl e) rows le h k = tt
after_draw-Fits selected r (inr widget) rows le h k = elim (Bool-cases r.closing) [
  | inl closes ↦ rw closes tt
  | inr open_still ↦ rw open_still (
      on_poll-Fits (widget selected) r r.polled
        (Fits-le (widget selected) rows r.len le (k selected h)))
]

-- A round keeps what is selected to the first row or a row of the table, which may have grown between
-- drawing it and reading a key.
pub round-Fits :
    (selected : Option ℕ) (r : Round) (rows : ℕ)
    → rows ≤ r.len
    → Fits selected rows
    → KeepsToRows r.drawn rows
    → NextFits (round selected r) r.len
unfolding round
round-Fits selected r rows le h k = after_draw-Fits selected r r.drawn rows le h k
