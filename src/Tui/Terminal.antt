-- ===== src/Tui/Terminal.antt =====
-- `setup_terminal`, `restore_terminal` and `run_blocking` of lanscope/src/tui/mod.rs on a terminal.
-- The terminal is the library `crossterm`, which is a parameter: a call changes the terminal, also
-- where it fails, and yields its error where it does.
pub mod Restored
use lanscope.Base.{true, ℕ, Bool, false, Option, none, some, List, [], ◌∷◌}
use lanscope.Base.Text.{Bytes}
use lanscope.Error.{Error, Result, ok, err, io}
use lanscope.Tui.Loop.{Round, Next, goes_on, ends, round}

-- What a program leaves behind in a terminal: raw mode, the alternate screen and a hidden cursor.
pub record Modes : Type 0 where
  pub raw : Bool
  pub alternate : Bool
  pub hidden : Bool

-- The terminal as a shell expects it.
abbrev pub plain : Modes
plain = record { raw = false; alternate = false; hidden = false }

pub record Crossterm : Type 1 where
  pub Terminal : Type 0
  pub modes : Terminal → Modes
  pub enable_raw_mode : Terminal → Terminal × Option Bytes
  pub enter_alternate_screen : Terminal → Terminal × Option Bytes
  pub new_terminal : Terminal → Terminal × Option Bytes
  pub draw : Terminal → Terminal
  pub disable_raw_mode : Terminal → Terminal × Option Bytes
  pub leave_alternate_screen : Terminal → Terminal × Option Bytes
  pub show_cursor : Terminal → Terminal × Option Bytes

module _ (lib : Crossterm) where
  open lib use {
    Terminal, enable_raw_mode, enter_alternate_screen, new_terminal, draw, disable_raw_mode,
    leave_alternate_screen, show_cursor,
  }

  -- `.map_err(Error::Io)?` and the rest
  unfoldable pub or_return :
      Terminal × Option Bytes → (Terminal → Terminal × Result {0} Unit) → Terminal × Result {0} Unit
  or_return (t, some e) rest = (t, err (io e))
  or_return (t, none) rest = rest t

  succeeds : Terminal → Terminal × Result {0} Unit
  succeeds t = (t, ok tt)

  unfoldable pub setup_terminal : Terminal → Terminal × Result {0} Unit
  unfolding or_return succeeds
  setup_terminal t = or_return (enable_raw_mode t) (λ raw.
      or_return (enter_alternate_screen raw) (λ entered. or_return (new_terminal entered) succeeds))

  unfoldable pub restore_terminal : Terminal → Terminal × Result {0} Unit
  unfolding or_return succeeds
  restore_terminal t = or_return (disable_raw_mode t) (λ cooked.
      or_return (leave_alternate_screen cooked) (λ left. or_return (show_cursor left) succeeds))

  -- The loop: every round draws on the terminal first.
  unfoldable pub loop_on : Terminal → Option ℕ → List Round → Terminal × Option (Result {0} Unit)
  unfolding round
  loop_on t selected [] = (t, none)
  loop_on t selected (r ∷ rounds) = elim (round selected r) [
    | goes_on next ↦ loop_on (draw t) next rounds
    | ends result ↦ (draw t, some result)
  ]

  -- The result, with whether the shutdown flag was sent.
  after_restore :
      Terminal × Result {0} Unit → Result {0} Unit → Terminal × Option (Result {0} Unit × Bool)
  after_restore (t, err e) result = (t, some (err e, false))
  after_restore (t, ok _) result = (t, some (result, true))

  after_loop : Terminal × Option (Result {0} Unit) → Terminal × Option (Result {0} Unit × Bool)
  unfolding restore_terminal after_restore
  after_loop (t, none) = (t, none)
  after_loop (t, some result) = after_restore (restore_terminal t) result

  after_setup : Terminal × Result {0} Unit → List Round → Terminal × Option (Result {0} Unit × Bool)
  unfolding loop_on after_loop
  after_setup (t, err e) rounds = (t, some (err e, false))
  after_setup (t, ok _) rounds = after_loop (loop_on t (some 0) rounds)

  -- `run_blocking`: the terminal in the end and, where it has returned, its result and whether it has
  -- sent the shutdown flag
  unfoldable pub run_blocking : Terminal → List Round → Terminal × Option (Result {0} Unit × Bool)
  unfolding setup_terminal after_setup
  run_blocking t rounds = after_setup (setup_terminal t) rounds
