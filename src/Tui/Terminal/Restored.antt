-- ===== src/Tui/Terminal/Restored.antt =====
-- How the interface leaves the terminal.
use lanscope.Tui.Loop.Quits.{Next-cases}
use lanscope.Base.{
  [], ◌∷◌, ℕ, ◌≡◌, ◌⊎◌, inl, inr, Bool, true, false, none, some, List, Option, refl, sym, ◌∙◌,
}
use lanscope.Base.Text.{Bytes}
use lanscope.Error.{Error, Result, ok, err, io}
use lanscope.Tui.Loop.{ui_loop, Round, round}
use lanscope.Tui.Terminal.{
  plain, Crossterm, or_return, setup_terminal, restore_terminal, loop_on, after_restore, after_loop,
  after_setup, run_blocking, succeeds,
}

-- What the documentation of `crossterm` says of the calls that succeed.
pub record IsCrossterm (lib : Crossterm) : Type 0 where
  pub cooks :
      (t : lib.Terminal)
      → (lib.disable_raw_mode t).1 ≡ none
      → (lib.modes (lib.disable_raw_mode t).0).raw ≡ false
  pub leaves :
      (t : lib.Terminal)
      → (lib.leave_alternate_screen t).1 ≡ none
      → lib.modes (lib.leave_alternate_screen t).0 ≡ record (lib.modes t) { alternate = false }
  pub shows :
      (t : lib.Terminal)
      → (lib.show_cursor t).1 ≡ none
      → lib.modes (lib.show_cursor t).0 ≡ record (lib.modes t) { hidden = false }

module _ (lib : Crossterm) (documented : IsCrossterm lib) where
  open lib use {Terminal, modes, draw, disable_raw_mode, leave_alternate_screen, show_cursor}

  -- A restoration that fails, or one that leaves the terminal as a shell expects it.
  Restores : Terminal × Result {0} Unit → Type 0
  Restores (t, result) =
      ((e : Bytes) × (result ≡ err (io e))) ⊎ ((result ≡ ok tt) × (modes t ≡ plain))

  -- Where a call fails, the rest is left out.
  or_return-Restores :
      (called : Terminal × Option Bytes) (rest : Terminal → Terminal × Result {0} Unit)
      → (called.1 ≡ none → Restores (rest called.0))
      → Restores (or_return lib called rest)
  unfolding or_return Restores
  or_return-Restores (t, some e) rest h = inl (e, refl)
  or_return-Restores (t, none) rest h = h refl

  all_undone :
      (t : Terminal)
      → (modes t).raw ≡ false
      → (leave_alternate_screen t).1 ≡ none
      → (show_cursor (leave_alternate_screen t).0).1 ≡ none
      → modes (show_cursor (leave_alternate_screen t).0).0 ≡ plain
  all_undone t cooked left shown =
      rw (documented.shows (leave_alternate_screen t).0 shown, documented.leaves t left, cooked)
        refl

  restore_terminal-Restores : (t : Terminal) → Restores (restore_terminal lib t)
  unfolding restore_terminal succeeds Restores
  restore_terminal-Restores t = or_return-Restores (disable_raw_mode t) _ (λ cooked.
      or_return-Restores (leave_alternate_screen (disable_raw_mode t).0) _ (λ left.
        or_return-Restores (show_cursor (leave_alternate_screen (disable_raw_mode t).0).0) _
          (λ shown.
            inr (refl, all_undone (disable_raw_mode t).0 (documented.cooks t cooked) left shown))))

  after_restore-ends :
      (called : Terminal × Result {0} Unit) (ended result : Result {0} Unit) (sent : Bool)
      → Restores called
      → (after_restore lib called ended).1 ≡ some (result, sent)
      → ((sent ≡ true)
          × (some ended ≡ some result)
          × (modes (after_restore lib called ended).0 ≡ plain))
        ⊎ ((e : Bytes) × (sent ≡ false) × (result ≡ err (io e)) × (called.1 ≡ err (io e)))
  unfolding after_restore Restores
  after_restore-ends (t, err e) ended result sent (inl (text, failed)) eq =
      inr (text, cc, cc, failed)
  after_restore-ends (t, err e) ended result sent (inr (fine, same)) eq = cc
  after_restore-ends (t, ok x) ended result sent (inl (text, failed)) eq = cc
  after_restore-ends (t, ok x) ended result sent (inr (fine, same)) eq = inl (cc, cc, same)

  after_loop-ends :
      (looped : Terminal × Option (Result {0} Unit)) (result : Result {0} Unit) (sent : Bool)
      → (after_loop lib looped).1 ≡ some (result, sent)
      → ((sent ≡ true) × (looped.1 ≡ some result) × (modes (after_loop lib looped).0 ≡ plain))
        ⊎ ((e : Bytes) × (sent ≡ false)
            × (result ≡ err (io e))
            × ((restore_terminal lib looped.0).1 ≡ err (io e)))
  unfolding after_loop
  after_loop-ends (t, none) result sent eq = cc
  after_loop-ends (t, some ended) result sent eq =
      after_restore-ends (restore_terminal lib t) ended result sent (restore_terminal-Restores t) eq

  loop_on-ui_loop :
      (t : Terminal) (selected : Option ℕ) (rounds : List Round)
      → (loop_on lib t selected rounds).1 ≡ (ui_loop selected rounds).1
  unfolding loop_on ui_loop
  loop_on-ui_loop t selected [] = refl
  loop_on-ui_loop t selected (r ∷ rounds) = elim (Next-cases (round selected r)) [
    | inl (next, eq) ↦ rw (eq, loop_on, ui_loop) (loop_on-ui_loop (draw t) next rounds)
    | inr (result, eq) ↦ rw (eq, loop_on, ui_loop) refl
  ]

  after_setup-ends :
      (set_up : Terminal × Result {0} Unit) (rounds : List Round) (result : Result {0} Unit)
      (sent : Bool)
      → (after_setup lib set_up rounds).1 ≡ some (result, sent)
      → ((sent ≡ true)
          × ((ui_loop (some 0) rounds).1 ≡ some result)
          × (modes (after_setup lib set_up rounds).0 ≡ plain))
        ⊎ ((e : Error) × (sent ≡ false)
            × (result ≡ err e)
            × ((set_up.1 ≡ err e)
                ⊎ ((restore_terminal lib (loop_on lib set_up.0 (some 0) rounds).0).1 ≡ err e)))
  unfolding after_setup
  after_setup-ends (t, err e) rounds result sent eq = inr (e, cc, cc, inl refl)
  after_setup-ends (t, ok x) rounds result sent eq =
      elim (after_loop-ends (loop_on lib t (some 0) rounds) result sent eq) [
        | inl (sends, ended, same) ↦
            inl (sends, sym (loop_on-ui_loop t (some 0) rounds) ∙ ended, same)
        | inr (e, silent, failed, why) ↦ inr (io e, silent, failed, inr why)
      ]

  -- Where the interface has returned, one of two things holds: it has sent the shutdown flag, its result
  -- is that of the loop, and the terminal is out of raw mode, on its main screen and shows the cursor,
  -- whatever it was before; or the flag is not sent, and the result is the error of setting the
  -- terminal up or of restoring it. The documentation of `crossterm` is assumed for the calls that
  -- restore.
  pub run_blocking_ends :
      (t : Terminal) (rounds : List Round) (result : Result {0} Unit) (sent : Bool)
      → (run_blocking lib t rounds).1 ≡ some (result, sent)
      → ((sent ≡ true)
          × ((ui_loop (some 0) rounds).1 ≡ some result)
          × (modes (run_blocking lib t rounds).0 ≡ plain))
        ⊎ ((e : Error) × (sent ≡ false)
            × (result ≡ err e)
            × (((setup_terminal lib t).1 ≡ err e)
                ⊎ ((restore_terminal lib (loop_on lib (setup_terminal lib t).0 (some 0) rounds).0).1
                    ≡ err e)))
  unfolding run_blocking
  run_blocking_ends t rounds result sent eq =
      after_setup-ends (setup_terminal lib t) rounds result sent eq
