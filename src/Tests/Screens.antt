-- ===== src/Tests/Screens.antt =====
-- The interface beside the loop.
use lanscope.Tui.Render.Shows.{IsRatatui}
use lanscope.Tui.Render.{render_devices, render, Ratatui}
use lanscope.Anomaly.Engine.{default_stack}
use lanscope.Tests.Tables.{no_tables, length_prefixed}
use lanscope.Tui.Content.{device_detail, detail_lines}
use lanscope.Storage.Sqlite.{sqlite_store}
use lanscope.Tests.Samples.{no_inference, laptop_mac, whole_numbers}
use lanscope.Registry.{new_device, DeviceRegistry, Device}
use lanscope.Base.Text.{codes}
use lanscope.Base.{
  ◌>>=◌, zero, min, ◌<◌, suc, ◌≢◌, map, length-map, Option, ℕ, get_elem?, arith, refl, none, some,
  true, false, inr, ◌∷◌, [], ◌≡◌,
}
use lanscope.App.Loop.{tick}
use lanscope.Tui.Loop.{on_key, Round, key, down, round}
use lanscope.App.{Pipeline, publish_devices}
use lanscope.Tui.{Dashboard, set_devices, new_dashboard, move_selection, sort_by_last_seen}
use lanscope.App.Beside.{Beside-detail, Beside, here, flush_ticked, none_yet, round_done}

abbrev one_laptop : DeviceRegistry
one_laptop = record { devices = (laptop_mac, new_device laptop_mac 100) ∷ [] }

-- The laptop is known, and nothing was published yet.
abbrev at_start : Pipeline whole_numbers no_inference (sqlite_store length_prefixed)
at_start = record {
  registry = one_laptop;
  anomaly = default_stack whole_numbers no_inference;
  dashboard = some (new_dashboard (codes "portable") (codes "host"));
  stored = no_tables;
  metrics = [];
}

-- The user presses the arrow down.
abbrev pressed_down : Round
pressed_down = record {
  drawn = inr (λ selected. selected);
  closing = false;
  polled = inr true;
  event = inr (key true down);
  len = 1;
}

abbrev published : Dashboard
published = record {
  backend = codes "portable";
  mode = codes "host";
  devices = new_device laptop_mac 100 ∷ [];
  alerts = [];
}

abbrev ticked_once : Pipeline whole_numbers no_inference (sqlite_store length_prefixed)
ticked_once = tick whole_numbers no_inference (sqlite_store length_prefixed) at_start

moved_once :
    Beside whole_numbers no_inference
      (sqlite_store length_prefixed)
      at_start
      (some 0)
      ticked_once
      (some 0)
unfolding tick publish_devices set_devices new_dashboard round on_key move_selection
moved_once = round_done here pressed_down (λ selected h. h) (flush_ticked none_yet) refl refl

Beside-detail_example :
    (d : Device) × (get_elem? published.devices 0 ≡ some d)
    × (detail_lines (λ t. none) published (some 0) ≡ device_detail (λ t. none) d)
unfolding tick publish_devices set_devices new_dashboard sort_by_last_seen
Beside-detail_example =
    Beside-detail whole_numbers no_inference (sqlite_store length_prefixed) (λ t. none)
      (codes "portable") (codes "host") published 0 refl moved_once refl (ground arith) refl

abbrev clamped : ℕ → ℕ → Option ℕ → Option ℕ
clamped area rows none = none
clamped area zero (some i) = none
clamped area (suc rows) (some i) = some (min i rows)

clamped-keeps :
    (area rows i : ℕ) → rows ≢ 0 → (j : ℕ) × (clamped area rows (some i) ≡ some j) × (j < rows)
clamped-keeps area zero i full = absurd (full refl)
clamped-keeps area (suc rows) i full = (min i rows, refl, omega arith)

-- A screen whose areas are numbered, and a table that brings the selection to its last row.
abbrev numbered : Ratatui
numbered = record {
  Rect = ℕ;
  vertical = λ cs area. map (λ c. area) cs;
  horizontal = λ cs area. map (λ c. suc area) cs;
  select_row = clamped;
}

numbered-IsRatatui : IsRatatui numbered
numbered-IsRatatui = record {
  splits_vertical = λ cs area. length-map (λ c. area) cs;
  splits_horizontal = λ cs area. length-map (λ c. suc area) cs;
  keeps_row = clamped-keeps;
  keeps_none = λ area rows. refl;
  empties = λ area i. refl;
}

-- The row 7 is selected, and there is one device.
brought_into_rows :
    (render numbered (λ t. none) 0 published (some 7) >>= (λ frame. frame.1)) ≡ some 0
unfolding render render_devices
brought_into_rows = refl
