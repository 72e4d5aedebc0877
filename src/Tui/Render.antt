-- ===== src/Tui/Render.antt =====
-- `render` of lanscope/src/tui/mod.rs: which widget is drawn where. The library `ratatui`, which
-- splits an area and draws a widget, is a parameter. Colours and borders are left out.
pub mod Shows
use lanscope.Base.{ℕ, Option, none, some, List, [], ◌∷◌, map, length, get_elem?, ◌++◌, ◌>>=◌}
use lanscope.Base.Text.{codes, Bytes}
use lanscope.Netfmt.{DateTime}
use lanscope.Registry.{Device}
use lanscope.Tui.{Dashboard}
use lanscope.Tui.Content.{
  header_line, device_cells, devices_title, detail_lines, alert_item, alerts_title,
}

pub data Constraint : Type 0 where
  length_of min_of percentage : ℕ → Constraint

-- `split` yields an area for each constraint. `select_row` is what drawing a table with that many rows
-- makes of the selection.
pub record Ratatui : Type 1 where
  pub Rect : Type 0
  pub vertical : List Constraint → Rect → List Rect
  pub horizontal : List Constraint → Rect → List Rect
  pub select_row : Rect → ℕ → Option ℕ → Option ℕ

-- A paragraph with its title and lines; a table with its title, header, rows and widths and the row
-- that is highlighted; a list with its title and items.
pub data Widget : Type 0 where
  paragraph : Option Bytes → List Bytes → Widget
  table : Bytes → List Bytes → List (List Bytes) → List Constraint → Option ℕ → Widget
  list : Bytes → List Bytes → Widget

-- `Layout::vertical` and `Layout::horizontal` of `render`
abbrev pub chunks : List Constraint
chunks = length_of 3 ∷ min_of 0 ∷ length_of 1 ∷ []

abbrev pub body : List Constraint
body = percentage 58 ∷ percentage 42 ∷ []

abbrev pub right : List Constraint
right = percentage 50 ∷ percentage 50 ∷ []

abbrev pub device_header : List Bytes
device_header = codes "MAC" ∷ codes "TYPE" ∷ codes "NAME / VENDOR" ∷ codes "IP" ∷ []

abbrev pub device_widths : List Constraint
device_widths = length_of 18 ∷ length_of 20 ∷ min_of 14 ∷ length_of 16 ∷ []

-- " ↑/↓ select  q quit"
abbrev pub footer_line : Bytes
footer_line =
    (32 ∷ 0xE2 ∷ 0x86 ∷ 0x91 ∷ 47 ∷ 0xE2 ∷ 0x86 ∷ 0x93 ∷ 32 ∷ []) ++ codes "select  q quit"

module _ (lib : Ratatui) (calendar : ℕ → Option DateTime) where
  open lib use {Rect, vertical, horizontal, select_row}

  -- The areas of the header, the devices, the detail, the alerts and the footer.
  pub record Areas : Type 0 where
    pub header : Rect
    pub devices : Rect
    pub detail : Rect
    pub alerts : Rect
    pub footer : Rect

  -- An index out of bounds is a panic.
  unfoldable pub split_area : Rect → Option Areas
  split_area area = do
    header ← get_elem? (vertical chunks area) 0
    middle ← get_elem? (vertical chunks area) 1
    devices ← get_elem? (horizontal body middle) 0
    side ← get_elem? (horizontal body middle) 1
    detail ← get_elem? (vertical right side) 0
    alerts ← get_elem? (vertical right side) 1
    footer ← get_elem? (vertical chunks area) 2
    some record {
      header = header;
      devices = devices;
      detail = detail;
      alerts = alerts;
      footer = footer;
    }

  unfoldable pub render_header : Rect → Dashboard → Rect × Widget
  unfolding header_line
  render_header area dash = (area, paragraph none (header_line dash ∷ []))

  -- The table, and what drawing it leaves selected.
  unfoldable pub render_devices : Rect → Dashboard → Option ℕ → (Rect × Widget) × Option ℕ
  unfolding devices_title
  render_devices area dash selected =
      let row = select_row area (length dash.devices) selected in
      (
        (
          area,
          table (devices_title dash) device_header (map device_cells dash.devices) device_widths
              row,
        ),
        row,
      )

  unfoldable pub render_detail : Rect → Dashboard → Option ℕ → Rect × Widget
  unfolding detail_lines
  render_detail area dash selected =
      (area, paragraph (some (codes " Detail ")) (detail_lines calendar dash selected))

  unfoldable pub render_alerts : Rect → Dashboard → Rect × Widget
  unfolding alerts_title
  render_alerts area dash = (area, list (alerts_title dash) (map (alert_item calendar) dash.alerts))

  unfoldable pub render_footer : Rect → Rect × Widget
  render_footer area = (area, paragraph none (footer_line ∷ []))

  drawn : Areas → Dashboard → (Rect × Widget) × Option ℕ → List (Rect × Widget) × Option ℕ
  unfolding render_header render_detail render_alerts render_footer
  drawn areas dash (devices, row) = (
    render_header areas.header dash
        ∷ devices
        ∷ render_detail areas.detail dash row
        ∷ render_alerts areas.alerts dash
        ∷ render_footer areas.footer
        ∷ [],
    row,
  )

  -- What is drawn, and what is selected then; nothing where an index is out of bounds. The detail is of
  -- what drawing the table leaves selected.
  unfoldable pub render : Rect → Dashboard → Option ℕ → Option (List (Rect × Widget) × Option ℕ)
  unfolding split_area render_devices drawn
  render area dash selected = do
    areas ← split_area area
    some (drawn areas dash (render_devices areas.devices dash selected))
