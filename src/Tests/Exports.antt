-- ===== src/Tests/Exports.antt =====
-- The exporter.
use lanscope.App.Loop.{closed, capture_loop, received, Input, ticked}
use lanscope.Tests.Samples.{
  some_stats, one_flow, new_pipeline, log_store, no_inference, whole_numbers,
}
use lanscope.Base.{
  ap, inr, [], ◌∷◌, inl, Bool-cases, ◌≢◌, false, ==_iff, ◌^◌, ◌%◌, nat_Eq, list_Eq, ◌↔◌, ◌+◌, ◌&&◌,
  ◌==◌, true, refl, if◌then◌else◌, ◌≡◌, ℕ, List, Eq, Bool, ==_refl,
}
use lanscope.App.{flows}
use lanscope.App.Exporter.{Recorder, Key, flow_bytes, perform_all}
use lanscope.App.Exporter.Exported.{IsRecorder, capture_loop-exported, of_bytes}
use lanscope.App.Exporter.Counted.{final}

not_both : false ≡ true → ⊥
not_both h = cc

key_same : Key → Key → Bool
key_same a b = a.name == b.name && a.labels == b.labels

same_key : (a b : Key) → a.name ≡ b.name → a.labels ≡ b.labels → a ≡ b
same_key a b names labels = cc

key_same_iff : (a b : Key) → (key_same a b ≡ true) ↔ (a ≡ b)
unfolding key_same
key_same_iff a b =
    let (name, name') = ==_iff a.name b.name in
    let (labels, labels') = ==_iff a.labels b.labels in
    (
      (λ h. elim (Bool-cases (a.name == b.name)) [
        | inl names ↦ same_key a b (name names) (labels (rw names at h))
        | inr others ↦ absurd (not_both (rw others at h))
      ]),
      λ h. rw (name' (ap (λ k. k.name) h), labels' (ap (λ k. k.labels) h)) refl,
    )

instance abbrev key_Eq : Eq Key
key_Eq = record { same = key_same; same_iff = key_same_iff }

-- A recorder that has a number for each counter.
abbrev counting : Recorder
counting = record {
  State = Key → ℕ;
  set_gauge = λ s name n. s;
  increment = λ s key n other. if key == other then (s other + n) % 2 ^ 64 else s other;
  counter = λ s key. s key;
}

kept :
    (s : Key → ℕ) (key other : Key) (n : ℕ)
    → key ≢ other
    → (if key == other then (s other + n) % 2 ^ 64 else s other) ≡ s other
kept s key other n different = elim (Bool-cases (key == other)) [
  | inl same ↦ absurd (different ((==_iff key other).0 same))
  | inr differs ↦ rw differs refl
]

counting-IsRecorder : IsRecorder counting
counting-IsRecorder = record {
  gauge_keeps = λ s name n key. refl;
  increments = λ s key n. rw (==_refl key) refl;
  keeps = λ s key other n different. kept s key other n different;
}

abbrev inputs : List Input
inputs = received (flows ((one_flow, some_stats) ∷ [])) 100 ∷ ticked ∷ closed ∷ []

capture_loop-exported_example :
    counting.counter
      (perform_all counting
        (λ key. 0)
        (final whole_numbers no_inference log_store
          (λ packets bytes. bytes)
          (capture_loop whole_numbers no_inference log_store new_pipeline 0 inputs)).metrics)
      flow_bytes
    ≡ 1500
capture_loop-exported_example =
    capture_loop-exported counting counting-IsRecorder whole_numbers no_inference log_store
      new_pipeline 0 inputs (λ key. 0) flow_bytes (λ packets bytes. bytes) refl refl of_bytes
