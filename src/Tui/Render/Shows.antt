-- ===== src/Tui/Render/Shows.antt =====
-- What a frame shows.
use lanscope.Base.Text.{codes}
use mathlib.Core.Path.{subst}
use lanscope.Tui.Loop.Fits.{Fits, KeepsToRows}
use lanscope.Base.{
  none, sym, inr, zero, suc, get_elem?_of_lt, get_elem?-map, ℕ, Option, some, List, map, length,
  get_elem?, ◌≡◌, ◌≢◌, ◌<◌, refl, arith,
}
use lanscope.Netfmt.{DateTime}
use lanscope.Registry.{Device}
use lanscope.Tui.{Dashboard}
use lanscope.Tui.Content.{devices_title, detail_lines, device_detail, device_cells}
use lanscope.Tui.Render.{
  paragraph, device_widths, device_header, table, Widget, render_detail, render_devices, right,
  body, chunks, Ratatui, Constraint, Areas, split_area, drawn, render,
}

-- What the documentation of `ratatui` says: a layout yields an area for each constraint, and a table
-- brings a selection into its rows, or drops it where it has none.
pub record IsRatatui (lib : Ratatui) : Type 0 where
  pub splits_vertical :
      (cs : List Constraint) (area : lib.Rect) → length (lib.vertical cs area) ≡ length cs
  pub splits_horizontal :
      (cs : List Constraint) (area : lib.Rect) → length (lib.horizontal cs area) ≡ length cs
  pub keeps_row :
      (area : lib.Rect) (rows i : ℕ)
      → rows ≢ 0
      → (j : ℕ) × (lib.select_row area rows (some i) ≡ some j) × (j < rows)
  pub keeps_none : (area : lib.Rect) (rows : ℕ) → lib.select_row area rows none ≡ none
  pub empties : (area : lib.Rect) (i : ℕ) → lib.select_row area 0 (some i) ≡ none

-- The area of a constraint.
area_of :
    {A : Type 0} (cs : List Constraint) (areas : List A) (i : ℕ)
    → length areas ≡ length cs
    → i < length cs
    → (r : A) × (get_elem? areas i ≡ some r)
area_of cs areas i whole within = get_elem?_of_lt areas i (omega (arith, whole, within))

module _ (lib : Ratatui) (documented : IsRatatui lib) (calendar : ℕ → Option DateTime) where
  open lib use {Rect, vertical, horizontal, select_row}

  split_area-total :
      (area : Rect) → (areas : Areas lib calendar) × (split_area lib calendar area ≡ some areas)
  unfolding split_area
  split_area-total area =
      let (header, at_header) =
        area_of chunks _ 0 (documented.splits_vertical chunks area) (omega arith) in
      let (middle, at_middle) =
        area_of chunks _ 1 (documented.splits_vertical chunks area) (omega arith) in
      let (footer, at_footer) =
        area_of chunks _ 2 (documented.splits_vertical chunks area) (omega arith) in
      let (devices, at_devices) =
        area_of body _ 0 (documented.splits_horizontal body middle) (omega arith) in
      let (side, at_side) =
        area_of body _ 1 (documented.splits_horizontal body middle) (omega arith) in
      let (detail, at_detail) =
        area_of right _ 0 (documented.splits_vertical right side) (omega arith) in
      let (alerts, at_alerts) =
        area_of right _ 1 (documented.splits_vertical right side) (omega arith) in
      (
        record {
          header = header;
          devices = devices;
          detail = detail;
          alerts = alerts;
          footer = footer;
        },
        rw (at_header, at_middle, at_devices, at_side, at_detail, at_alerts, at_footer) refl,
      )

  -- Whatever the area, a frame is drawn. Where there are devices and a row is selected, the row that it
  -- highlights is one of the table, and the detail that it shows is that of the device of the row.
  pub render_shows :
      (area : Rect) (dash : Dashboard) (i : ℕ)
      → length dash.devices ≢ 0
      → (row : ℕ) × (d : Device) × (frame : List (Rect × Widget)) × (devices detail : Rect)
        × (render lib calendar area dash (some i) ≡ some (frame, some row))
        × (get_elem? frame 1
            ≡ some (
              devices,
              table
                  (devices_title dash)
                  device_header
                  (map device_cells dash.devices)
                  device_widths
                  (some row),
            ))
        × (get_elem? frame 2
            ≡ some (detail, paragraph (some (codes " Detail ")) (device_detail calendar d)))
        × (get_elem? dash.devices row ≡ some d)
        × (get_elem? (map device_cells dash.devices) row ≡ some (device_cells d))
  unfolding render render_devices render_detail detail_lines drawn
  render_shows area dash i full =
      let (areas, split) = split_area-total area in
      let (row, kept, within) = documented.keeps_row areas.devices (length dash.devices) i full in
      let (d, found) = get_elem?_of_lt dash.devices row within in
      (
        row,
        d,
        (drawn lib calendar areas dash (render_devices lib calendar areas.devices dash (some i))).0,
        areas.devices,
        areas.detail,
        rw (split, kept) refl,
        rw kept refl,
        rw (kept, found) refl,
        found,
        get_elem?-map device_cells dash.devices row found,
      )

  -- What a frame leaves selected is a row of the table: drawing keeps to the rows.
  pub select_row-KeepsToRows :
      (area : Rect) (rows : ℕ) → KeepsToRows (inr (select_row area rows)) rows
  select_row-KeepsToRows area rows none fits =
      subst (λ row. Fits row rows) (sym (documented.keeps_none area rows)) tt
  select_row-KeepsToRows area zero (some i) fits =
      subst (λ row. Fits row 0) (sym (documented.empties area i)) tt
  select_row-KeepsToRows area (suc rows) (some i) fits =
      let (row, kept, within) = documented.keeps_row area (suc rows) i (omega arith) in
      subst (λ row. Fits row (suc rows)) (sym kept) (inr within)
