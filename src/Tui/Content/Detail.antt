-- ===== src/Tui/Content/Detail.antt =====
-- What the detail shows after the selection has moved.
use lanscope.Base.{get_elem?_of_lt, ℕ, ◌≡◌, ◌≢◌, length, get_elem?, Option, none, some, refl}
use lanscope.Netfmt.{DateTime}
use lanscope.Registry.{Device}
use lanscope.Tui.{Dashboard, Delta, move_selection}
use lanscope.Tui.Feed.{move_selection-InRange, InRange}
use lanscope.Tui.Content.{detail_lines, device_detail}

shown :
    (calendar : ℕ → Option DateTime) (dash : Dashboard) (selected : Option ℕ)
    → selected ≢ none
    → InRange selected (length dash.devices)
    → (i : ℕ) × (d : Device) × (selected ≡ some i)
      × (get_elem? dash.devices i ≡ some d)
      × (detail_lines calendar dash selected ≡ device_detail calendar d)
unfolding detail_lines
shown calendar dash none some_row h = absurd (some_row refl)
shown calendar dash (some i) some_row h =
    let (d, found) = get_elem?_of_lt dash.devices i h in (i, d, refl, found, rw found refl)

-- However the selection moves on a table that is not empty, the detail shows the device of the row
-- that is then selected, and never that none is.
pub detail_lines-selected :
    (calendar : ℕ → Option DateTime) (dash : Dashboard) (selected : Option ℕ) (delta : Delta)
    → length dash.devices ≢ 0
    → (i : ℕ) × (d : Device) × (move_selection selected delta (length dash.devices) ≡ some i)
      × (get_elem? dash.devices i ≡ some d)
      × (detail_lines calendar dash (move_selection selected delta (length dash.devices))
          ≡ device_detail calendar d)
detail_lines-selected calendar dash selected delta full =
    let (bound, empty) = move_selection-InRange selected delta (length dash.devices) in
    shown calendar dash (move_selection selected delta (length dash.devices))
      (λ h. full (empty.1 h)) bound
