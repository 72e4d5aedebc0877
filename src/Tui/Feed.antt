-- ===== src/Tui/Feed.antt =====
-- The live feed and the selection.
use native.Mathlib.Nat.{mod-lt}
use lanscope.Alert.{Alert}
use lanscope.Tui.{
  backward, unwrap_selected, forward, rem_euclid, max_alerts, Delta, push_alert, move_selection,
  Dashboard,
}
use lanscope.Base.{
  take_of_length-le, length-take, ◌≤◌, length, nat_Eq, inr, ◌==◌, inl, Bool-cases, ◌%◌, ◌-◌, leb,
  arith, ◌+◌, zero, sym, refl, ◌∙◌, ap, ◌↔◌, suc, none, [], ◌≡◌, ◌∷◌, ◌<◌, take, some, ℕ, Option,
  List,
}

-- The reverse of the first list, before the second.
abbrev pub reverse_onto : List Alert → List Alert → List Alert
reverse_onto [] acc = acc
reverse_onto (a ∷ alerts) acc = reverse_onto alerts (a ∷ acc)

abbrev pub push_all : Dashboard → List Alert → Dashboard
push_all dash [] = dash
push_all dash (a ∷ alerts) = push_all (push_alert dash a) alerts

pub take-take-cons :
    (n : ℕ) (a : Alert) (xs : List Alert) → take n (a ∷ take n xs) ≡ take n (a ∷ xs)
take-take-cons zero a xs = refl
take-take-cons (suc n) a xs = ap (λ ys. a ∷ ys) (shorter n xs)
  where
    shorter : (n : ℕ) (xs : List Alert) → take n (take (suc n) xs) ≡ take n xs
    shorter zero xs = refl
    shorter (suc n) [] = refl
    shorter (suc n) (x ∷ xs) = ap (λ ys. x ∷ ys) (shorter n xs)

pub take-reverse_onto :
    (n : ℕ) (alerts xs : List Alert)
    → take n (reverse_onto alerts (take n xs)) ≡ take n (reverse_onto alerts xs)
take-reverse_onto n [] xs = shorten n xs
  where
    shorten : (n : ℕ) (xs : List Alert) → take n (take n xs) ≡ take n xs
    shorten zero xs = refl
    shorten (suc n) [] = refl
    shorten (suc n) (x ∷ xs) = ap (λ ys. x ∷ ys) (shorten n xs)
take-reverse_onto n (a ∷ alerts) xs =
    sym (take-reverse_onto n alerts (a ∷ take n xs))
    ∙ ap (λ ys. take n (reverse_onto alerts ys)) (take-take-cons n a xs)
    ∙ take-reverse_onto n alerts (a ∷ xs)

push_all-take :
    (dash : Dashboard) (alerts : List Alert)
    → take max_alerts (push_all dash alerts).alerts
      ≡ take max_alerts (reverse_onto alerts dash.alerts)
unfolding push_alert
push_all-take dash [] = refl
push_all-take dash (a ∷ alerts) =
    push_all-take (push_alert dash a) alerts ∙ take-reverse_onto max_alerts alerts (a ∷ dash.alerts)

push_all-bounded :
    (dash : Dashboard) (alerts : List Alert)
    → length dash.alerts ≤ max_alerts
    → length (push_all dash alerts).alerts ≤ max_alerts
unfolding push_alert
push_all-bounded dash [] h = h
push_all-bounded dash (a ∷ alerts) h =
    push_all-bounded (push_alert dash a) alerts
      (omega (arith, length-take max_alerts (a ∷ dash.alerts)))

-- A feed of at most 200 alerts holds, after a run of alerts, the newest 200 of them and of those
-- before them, newest first, and again at most 200.
pub push_all_newest :
    (dash : Dashboard) (alerts : List Alert)
    → length dash.alerts ≤ max_alerts
    → ((push_all dash alerts).alerts ≡ take max_alerts (reverse_onto alerts dash.alerts))
      × (length (push_all dash alerts).alerts ≤ max_alerts)
push_all_newest dash alerts h =
    let bound = push_all-bounded dash alerts h in
    (
      sym (take_of_length-le max_alerts (push_all dash alerts).alerts bound)
          ∙ push_all-take dash alerts,
      bound,
    )

-- What is selected is a row of the table.
abbrev pub InRange : Option ℕ → ℕ → Type 0
InRange none len = Unit
InRange (some i) len = i < len

pub rem_euclid-lt : (cur : ℕ) (delta : Delta) (len : ℕ) → 0 < len → rem_euclid cur delta len < len
rem_euclid-lt cur (forward n) len h = mod-lt (cur + n) h
rem_euclid-lt cur (backward n) len h = elim (Bool-cases (leb n cur)) [
  | inl le ↦ rw le (mod-lt (cur - n) h)
  | inr gt ↦ rw gt (mod-lt (len - (n - cur) % len) h)
]

-- Wherever the selection stood and however far it moves, it ends on a row of the table, or on none
-- exactly when the table is empty.
pub move_selection-InRange :
    (selected : Option ℕ) (delta : Delta) (len : ℕ)
    → InRange (move_selection selected delta len) len
      × ((len ≡ 0) ↔ (move_selection selected delta len ≡ none))
unfolding move_selection
move_selection-InRange selected delta len = elim (Bool-cases (len == 0)) [
  | inl empty ↦ rw empty (tt, (λ h. refl, λ h. ground (arith, empty)))
  | inr full ↦ rw full (
    rem_euclid-lt (unwrap_selected selected) delta len (ground (arith, full)),
    (λ h. ground (arith, full, h), λ h. cc),
  )
]
