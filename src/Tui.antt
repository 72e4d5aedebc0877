-- ===== src/Tui.antt =====
-- lanscope/src/tui/mod.rs: the snapshot the renderer shows, and the selection.
pub mod Feed
pub mod Order
pub mod Loop
pub mod Terminal
pub mod Content
pub mod Render
use lanscope.Registry.{Device}
use lanscope.Base.Text.{Bytes}
use lanscope.Base.{
  ◌-◌, nat_Eq, ◌==◌, ◌%◌, none, leb, ◌∷◌, ◌+◌, take, some, if◌then◌else◌, [], ℕ, Option, List,
}
use lanscope.Alert.{Alert}

abbrev pub max_alerts : ℕ
max_alerts = 200

pub record Dashboard : Type 0 where
  pub backend : Bytes
  pub mode : Bytes
  pub devices : List Device
  pub alerts : List Alert

-- `Dashboard::new`
unfoldable pub new_dashboard : Bytes → Bytes → Dashboard
new_dashboard backend mode = record { backend = backend; mode = mode; devices = []; alerts = [] }

insert_seen : Device → List Device → List Device
insert_seen d [] = d ∷ []
insert_seen d (e ∷ devices) =
    let rest = insert_seen d devices in
    if leb e.last_seen d.last_seen then d ∷ e ∷ devices else e ∷ rest

-- `sort_by_key(|d| Reverse(d.last_seen))`, which is stable
unfoldable pub sort_by_last_seen : List Device → List Device
unfolding insert_seen
sort_by_last_seen [] = []
sort_by_last_seen (d ∷ devices) = insert_seen d (sort_by_last_seen devices)

unfoldable pub set_devices : Dashboard → List Device → Dashboard
unfolding sort_by_last_seen
set_devices dash devices = record dash { devices = sort_by_last_seen devices }

-- `push_front`, then `truncate`
unfoldable pub push_alert : Dashboard → Alert → Dashboard
push_alert dash alert = record dash { alerts = take max_alerts (alert ∷ dash.alerts) }

-- `isize`: a number, or the negative of a number
pub data Delta : Type 0 where
  forward backward : ℕ → Delta

-- `(cur + delta).rem_euclid(len)`, where `len` is positive
abbrev pub rem_euclid : ℕ → Delta → ℕ → ℕ
rem_euclid cur (forward n) len = (cur + n) % len
rem_euclid cur (backward n) len =
    if leb n cur then (cur - n) % len else (len - (n - cur) % len) % len

unwrap_selected : Option ℕ → ℕ
unwrap_selected none = 0
unwrap_selected (some i) = i

-- `UiState::move_selection`, on what the table has selected
unfoldable pub move_selection : Option ℕ → Delta → ℕ → Option ℕ
unfolding unwrap_selected
move_selection selected delta len =
    if len == 0 then none else some (rem_euclid (unwrap_selected selected) delta len)
