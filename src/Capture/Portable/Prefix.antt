-- ===== src/Capture/Portable/Prefix.antt =====
-- What the portable backend sends to a receiver that goes away.
use mathlib.Core.List.{append_assoc, append-nil}
use lanscope.Base.{
  ◌||◌, none, ltb, false, inr, inl, Bool-cases, length-map, ◌++◌, ◌∙◌, ◌≡◌, ◌-◌, sym, ap, ℕ, zero,
  suc, Bool, true, length, leb, map, take, Option, some, List, [], ◌∷◌, arith, refl,
}
use lanscope.Common.Event.{Event}
use lanscope.Capture.{sample_events, sample_flows}
use lanscope.Capture.Ebpf.{Sender, send}
use lanscope.Capture.Portable.{send_events, run_portable, idle}
use lanscope.App.{CaptureEvent, discovery, flows}

abbrev pub sender_of : List CaptureEvent → ℕ → Sender
sender_of sent k = record { sent = sent; accepts = some k }

sent_equal :
    {a b : List CaptureEvent} {i j : ℕ} {x y : Bool}
    → a ≡ b
    → i ≡ j
    → x ≡ y
    → Path (Sender × Bool) (sender_of a i, x) (sender_of b j, y)
sent_equal p q r = cc

take_nil {ℓ} : {A : Type ℓ} (n : ℕ) → Path (List A) [] (take n [])
take_nil zero = refl
take_nil (suc n) = refl

take-append_split {ℓ} :
    {A : Type ℓ} (n : ℕ) (xs ys : List A) → take n (xs ++ ys) ≡ take n xs ++ take (n - length xs) ys
take-append_split n [] ys =
    let same : n ≡ n - 0 = omega arith in
    ap (λ m. take m ys) same ∙ ap (λ t. t ++ take (n - 0) ys) (take_nil n)
take-append_split zero (x ∷ xs) ys =
    let over : 0 ≡ 0 - suc (length xs) = omega arith in ap (λ m. take m ys) over
take-append_split (suc n) (x ∷ xs) ys =
    let less : n - length xs ≡ suc n - suc (length xs) = omega arith in
    ap (λ t. x ∷ t) (take-append_split n xs ys ∙ ap (λ m. take n xs ++ take m ys) less)

send_events-prefix :
    (events : List Event) (sent : List CaptureEvent) (k : ℕ)
    → send_events (sender_of sent k) events ≡ (
      sender_of (sent ++ take k (map discovery events)) (k - length events),
      leb (length events) k,
    )
unfolding send_events send
send_events-prefix [] sent k =
    sent_equal (sym (append-nil sent) ∙ ap (λ t. sent ++ t) (take_nil k)) (omega arith)
      (ground arith)
send_events-prefix (ev ∷ events) sent zero =
    sent_equal (sym (append-nil sent)) (omega arith) (ground arith)
send_events-prefix (ev ∷ events) sent (suc k) =
    send_events-prefix events (sent ++ discovery ev ∷ []) k
    ∙ sent_equal (append_assoc sent (discovery ev ∷ []) (take k (map discovery events)))
        (omega arith) (ground arith)

send-sent :
    (sent : List CaptureEvent) (k : ℕ) (ev : CaptureEvent)
    → (send (sender_of sent k) ev).0.sent ≡ sent ++ take k (ev ∷ [])
unfolding send
send-sent sent zero ev = sym (append-nil sent)
send-sent sent (suc k) ev = ap (λ t. sent ++ ev ∷ t) (take_nil k)

-- The frames and the snapshot that the backend replays.
abbrev pub replayed : List CaptureEvent
replayed = map discovery sample_events ++ flows sample_flows ∷ []

-- A change after which the backend ends: the flag is set, or its sender is gone.
abbrev pub ends : Option Bool → Bool
ends none = true
ends (some flag) = flag

abbrev pub some_ends : List (Option Bool) → Bool
some_ends [] = false
some_ends (change ∷ changes) = ends change || some_ends changes

idle-some_ends :
    (flag : Bool) (changes : List (Option Bool)) → idle flag changes ≡ (flag || some_ends changes)
unfolding idle
idle-some_ends true changes = refl
idle-some_ends false [] = refl
idle-some_ends false (none ∷ changes) = refl
idle-some_ends false (some flag ∷ changes) = idle-some_ends flag changes

enough : (n k : ℕ) (b : Bool) → leb n k ≡ true → b ≡ (ltb k n || b)
enough n k b h = ground (arith, h)

too_few : (n k : ℕ) (b : Bool) → leb n k ≡ false → true ≡ (ltb k n || b)
too_few n k b h = ground (arith, h)

-- To a receiver that takes so many messages, the backend sends as many of the frames and then the
-- snapshot as it takes, in order. It returns if a frame is not taken, if the shutdown flag is set at
-- first, or if one of the changes sets it or says that its sender is gone; otherwise it waits.
pub run_portable_sends :
    (sent : List CaptureEvent) (k : ℕ) (flag : Bool) (changes : List (Option Bool))
    → ((run_portable (sender_of sent k) flag changes).0.sent ≡ sent ++ take k replayed)
      × ((run_portable (sender_of sent k) flag changes).1
          ≡ (ltb k (length sample_events) || (flag || some_ends changes)))
unfolding run_portable send
run_portable_sends sent k flag changes =
    let frames = map discovery sample_events in
    let split =
      take-append_split k frames (flows sample_flows ∷ [])
      ∙ ap (λ n. take k frames ++ take (k - n) (flows sample_flows ∷ []))
          (length-map discovery sample_events) in
    elim (Bool-cases (leb (length sample_events) k)) [
      | inl all ↦
          rw (send_events-prefix sample_events sent k, all)
            (
              send-sent (sent ++ take k frames) (k - length sample_events) (flows sample_flows)
                  ∙ append_assoc sent (take k frames)
                      (take (k - length sample_events) (flows sample_flows ∷ []))
                  ∙ ap (λ t. sent ++ t) (sym split),
              idle-some_ends flag changes
                  ∙ enough (length sample_events) k (flag || some_ends changes) all,
            )
      | inr some_only ↦
          let over : k - length sample_events ≡ 0 = ground (arith, some_only) in
          rw (send_events-prefix sample_events sent k, some_only)
            (
              ap (λ t. sent ++ t)
                  (sym (
                    split
                    ∙ ap (λ n. take k frames ++ take n (flows sample_flows ∷ [])) over
                    ∙ append-nil (take k frames))),
              too_few (length sample_events) k (flag || some_ends changes) some_only,
            )
    ]

idle-told :
    (flag : Bool) (changes : List (Option Bool)) → idle flag (changes ++ some true ∷ []) ≡ true
unfolding idle
idle-told true changes = refl
idle-told false [] = refl
idle-told false (none ∷ changes) = refl
idle-told false (some flag ∷ changes) = idle-told flag changes

-- Whatever came before, the task returns once the shutdown flag is set.
pub run_portable-told :
    (tx : Sender) (flag : Bool) (changes : List (Option Bool))
    → (run_portable tx flag (changes ++ some true ∷ [])).1 ≡ true
unfolding run_portable
run_portable-told tx flag changes = elim (Bool-cases (send_events tx sample_events).1) [
  | inl all ↦ rw (all, run_portable) (idle-told flag changes)
  | inr lost ↦ rw (lost, run_portable) refl
]
