-- ===== src/Tests/Interface.antt =====
-- The interface and the printed commands.
use lanscope.Netfmt.{fmt_ts, fmt_mac}
use lanscope.Tui.Loop.{char, key, Round, ui_loop}
use lanscope.Base.Decimal.{to_string}
use lanscope.Tui.Terminal.{
  Crossterm, Modes, plain, run_blocking, setup_terminal, restore_terminal, loop_on,
}
use lanscope.Tui.Terminal.Restored.{IsCrossterm, run_blocking_ends}
use lanscope.Tui.Loop.Quits.{by_q, ui_loop_quits}
use lanscope.App.Commands.{csv_text, read_field, csv}
use lanscope.App.Commands.Exported.{csv_row-read, read_row}
use lanscope.Fingerprint.Oui.{lookup}
use lanscope.Base.Text.{codes, join}
use lanscope.Base.Columns.{chars}
use lanscope.App.Commands.Report.{csv_row, or_text}
use lanscope.Registry.{new_device, Device}
use lanscope.Error.{io, err, ok, Error, Result}
use lanscope.App.Commands.Table.{separator, device_row-width, table_header, device_row}
use lanscope.Tests.Samples.{laptop_mac}
use lanscope.Base.{
  ◌+◌, inl, List, refl, inr, false, arith, ◌++◌, none, get_elem?, [], ◌⊎◌, ◌∷◌, ◌≡◌, some, ℕ, true,
  suc,
}

abbrev drawn_round : Round
drawn_round = record {
  drawn = inr (λ selected. selected);
  closing = false;
  polled = inr true;
  event = inr (key true (char b'j'));
  len = 3;
}

abbrev quit_round : Round
quit_round = record drawn_round { event = inr (key true (char b'q')) }

ui_loop_quits_example :
    (result : Result {0} Unit) × ((ui_loop
        (some 0)
        ((drawn_round ∷ []) ++ quit_round ∷ drawn_round ∷ [])).1
      ≡ some result)
    × (ui_loop (some 0) ((drawn_round ∷ []) ++ quit_round ∷ drawn_round ∷ [])
        ≡ ui_loop (some 0) ((drawn_round ∷ []) ++ quit_round ∷ []))
ui_loop_quits_example =
    ui_loop_quits (some 0) (drawn_round ∷ []) (drawn_round ∷ []) quit_round
      (by_q (λ selected. selected) refl refl refl refl)

abbrev success : Result {0} Unit
success = ok tt

-- A terminal whose main screen is lost: nothing leaves the alternate screen.
abbrev stuck : Crossterm
stuck = record {
  Terminal = Modes;
  modes = λ t. t;
  enable_raw_mode = λ t. (record t { raw = true }, none);
  enter_alternate_screen = λ t. (record t { alternate = true }, none);
  new_terminal = λ t. (t, none);
  draw = λ t. record t { hidden = true };
  disable_raw_mode = λ t. (record t { raw = false }, none);
  leave_alternate_screen = λ t. (t, some (codes "Input/output error"));
  show_cursor = λ t. (record t { hidden = false }, none);
}

-- A terminal on which every call succeeds.
abbrev working : Crossterm
working = record stuck { leave_alternate_screen = λ t. (record t { alternate = false }, none) }

working-IsCrossterm : IsCrossterm working
working-IsCrossterm = record { cooks = λ t h. refl; leaves = λ t h. refl; shows = λ t h. refl }

abbrev two_rounds : List Round
two_rounds = drawn_round ∷ quit_round ∷ []

quits_well : (run_blocking working plain two_rounds).1 ≡ some (ok tt, true)
unfolding run_blocking loop_on
quits_well = refl

-- Where the main screen is lost, the flag is not sent.
stays_stuck : run_blocking stuck plain two_rounds ≡ (
  record { raw = false; alternate = true; hidden = true },
  some (err (io (codes "Input/output error")), false),
)
unfolding run_blocking loop_on
stays_stuck = refl

run_blocking_ends_example :
    ((true ≡ true)
      × ((ui_loop (some 0) two_rounds).1 ≡ some (ok tt))
      × ((run_blocking working plain two_rounds).0 ≡ plain))
    ⊎ ((e : Error) × (true ≡ false)
        × (success ≡ err e)
        × (((setup_terminal working plain).1 ≡ err e)
            ⊎ ((restore_terminal working
                  (loop_on working (setup_terminal working plain).0 (some 0) two_rounds).0).1
                ≡ err e)))
run_blocking_ends_example =
    run_blocking_ends working working-IsCrossterm plain two_rounds (ok tt) true quits_well

abbrev printer : Device
printer = record (new_device laptop_mac 100) {
  hostname = some (codes "office \"laser\", 2nd floor");
  ips = codes "10.0.0.9" ∷ [];
}

csv_row-read_example :
    read_row 8 (csv_row printer)
    ≡ some (
        printer.mac
        ∷ csv_text printer.vendor
        ∷ codes "office \"laser\", 2nd floor"
        ∷ codes "10.0.0.9"
        ∷ to_string 0
        ∷ to_string 0
        ∷ to_string 0
        ∷ to_string 100
        ∷ to_string 100
        ∷ [])
unfolding new_device or_text fmt_mac lookup
csv_row-read_example =
    csv_row-read printer (refl, refl, refl) (refl, refl, refl) (inr refl) (inl refl)

-- A name with a line feed and no comma is not quoted, and the record ends within it.
name_broken : read_row 8 (csv_row (record printer { hostname = some (codes "a\nb") })) ≡ none
unfolding read_row csv_row new_device or_text fmt_mac read_field join csv lookup
name_broken = refl

device_row-width_example :
    (chars (device_row (λ t. none) printer) ≡ chars table_header)
    × (chars table_header ≡ chars separator + 3)
unfolding new_device chars fmt_mac fmt_ts lanscope.Base.Decimal.to_string
device_row-width_example =
    device_row-width (λ t. none) printer (omega arith) (omega arith) (omega arith) (omega arith)
