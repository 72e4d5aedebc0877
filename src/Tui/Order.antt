-- ===== src/Tui/Order.antt =====
-- The devices of the dashboard are those given, last seen first.
use lanscope.Registry.{Device}
use lanscope.Tui.{Dashboard, sort_by_last_seen, set_devices, insert_seen}
use lanscope.Base.{
  ◌+◌, length, leb→le, inr, inl, leb, refl, arith, [], Bool-cases, ◌≤◌, ◌≡◌, ◌∷◌, All, ℕ, List,
}
use mathlib.Core.List.{Perm}
use mathlib.Core.List.Perm

-- Every device was seen no earlier than those after it.
abbrev pub IsRecentFirst : List Device → Type 0
IsRecentFirst [] = Unit
IsRecentFirst (d ∷ devices) = All (λ e. e.last_seen ≤ d.last_seen) devices × IsRecentFirst devices

All-insert_seen :
    (P : Device → Type 0) (d : Device) (devices : List Device)
    → P d
    → All P devices
    → All P (insert_seen d devices)
unfolding insert_seen
All-insert_seen P d [] p h = (p, tt)
All-insert_seen P d (e ∷ devices) p h = elim (Bool-cases (leb e.last_seen d.last_seen)) [
  | inl before ↦ rw before (p, h)
  | inr after ↦ rw after (h.0, All-insert_seen P d devices p h.1)
]

All-le :
    (a b : ℕ) (devices : List Device)
    → a ≤ b
    → All (λ e. e.last_seen ≤ a) devices
    → All (λ e. e.last_seen ≤ b) devices
All-le a b [] le h = tt
All-le a b (e ∷ devices) le h = (omega (arith, le, h.0), All-le a b devices le h.1)

insert_seen-IsRecentFirst :
    (d : Device) (devices : List Device)
    → IsRecentFirst devices
    → IsRecentFirst (insert_seen d devices)
unfolding insert_seen
insert_seen-IsRecentFirst d [] h = (tt, tt)
insert_seen-IsRecentFirst d (e ∷ devices) h = elim (Bool-cases (leb e.last_seen d.last_seen)) [
  | inl before ↦
      let le = leb→le e.last_seen d.last_seen before in
      rw before ((le, All-le e.last_seen d.last_seen devices le h.0), h)
  | inr after ↦ rw after (
    All-insert_seen (λ x. x.last_seen ≤ e.last_seen) d devices (ground arith) h.0,
    insert_seen-IsRecentFirst d devices h.1,
  )
]

insert_seen-Perm : (d : Device) (devices : List Device) → Perm (insert_seen d devices) (d ∷ devices)
unfolding insert_seen
insert_seen-Perm d [] = Perm.refl (d ∷ [])
insert_seen-Perm d (e ∷ devices) = elim (Bool-cases (leb e.last_seen d.last_seen)) [
  | inl before ↦ rw before (Perm.refl (d ∷ e ∷ devices))
  | inr after ↦
      rw after (Perm.trans (Perm.cons e (insert_seen-Perm d devices)) (Perm.swap d e devices))
]

sort-IsRecentFirst : (devices : List Device) → IsRecentFirst (sort_by_last_seen devices)
unfolding sort_by_last_seen
sort-IsRecentFirst [] = tt
sort-IsRecentFirst (d ∷ devices) =
    insert_seen-IsRecentFirst d (sort_by_last_seen devices) (sort-IsRecentFirst devices)

sort-Perm : (devices : List Device) → Perm (sort_by_last_seen devices) devices
unfolding sort_by_last_seen
sort-Perm [] = Perm.refl []
sort-Perm (d ∷ devices) =
    Perm.trans (insert_seen-Perm d (sort_by_last_seen devices)) (Perm.cons d (sort-Perm devices))

-- The dashboard holds exactly the devices it is given, in an order in which each was seen no
-- earlier than those after it, and keeps its alerts.
pub set_devices-IsRecentFirst :
    (dash : Dashboard) (devices : List Device)
    → IsRecentFirst (set_devices dash devices).devices
      × (Perm (set_devices dash devices).devices devices)
      × ((set_devices dash devices).alerts ≡ dash.alerts)
unfolding set_devices
set_devices-IsRecentFirst dash devices = (sort-IsRecentFirst devices, sort-Perm devices, refl)

length-insert_seen :
    (d : Device) (devices : List Device) → length (insert_seen d devices) ≡ 1 + length devices
unfolding insert_seen
length-insert_seen d [] = omega arith
length-insert_seen d (e ∷ devices) = ground (arith, length-insert_seen d devices)

pub length-sort_by_last_seen :
    (devices : List Device) → length (sort_by_last_seen devices) ≡ length devices
unfolding sort_by_last_seen
length-sort_by_last_seen [] = refl
length-sort_by_last_seen (d ∷ devices) =
    omega
      (arith, length-insert_seen d (sort_by_last_seen devices), length-sort_by_last_seen devices)
