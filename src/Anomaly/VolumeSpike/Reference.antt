-- ===== src/Anomaly/VolumeSpike/Reference.antt =====
-- The volume spike detector beside a description that goes through the flows of one source.
use lanscope.Base.{
  ◌∙◌, refl, ap, ==_iff, inr, inl, arith, Bool-cases, length, ◌==◌, ◌+◌, none, nat_Eq, ◌≡◌, some,
  if◌then◌else◌, [], ◌∷◌, ℕ, Option, List,
}
use mathlib.Core.Path.{subst}
use lanscope.Base.Float.{Floats}
use lanscope.Base.Dict.{get-insert, get}
use lanscope.Common.Flow.{FlowKey, FlowStats}
use lanscope.Anomaly.VolumeSpike.{on_flow, is_spike, new_average, spike_alerts, VolumeSpikeDetector}

-- Flows in the order in which they come, with their times.
abbrev pub Flows : Type 0
Flows = List (FlowKey × FlowStats × ℕ)

module _ (fl : Floats) where
  open fl use {F64, of_int, literal, add, sub, mul, lt}

  -- The bytes of the flows of a source.
  abbrev pub bytes_of : ℕ → Flows → List F64
  bytes_of src [] = []
  bytes_of src ((key, stats, now) ∷ flows) =
      let later = bytes_of src flows in
      if key.src_ip == src then of_int stats.bytes ∷ later else later

  -- The exponentially weighted average: the first value, then `alpha` of each value and the rest of
  -- the average before it.
  abbrev pub averaged : F64 → Option F64 → List F64 → Option F64
  averaged alpha avg [] = avg
  averaged alpha none (b ∷ bs) = averaged alpha (some b) bs
  averaged alpha (some a) (b ∷ bs) =
      averaged alpha (some (add (mul alpha b) (mul (sub (literal 1 0) alpha) a))) bs

  -- How many values are above the floor and above so many times the average of those before them,
  -- where there are such and the average is positive.
  abbrev pub spikes : F64 → F64 → F64 → Option F64 → List F64 → ℕ
  spikes alpha factor floor avg [] = 0
  spikes alpha factor floor none (b ∷ bs) = spikes alpha factor floor (some b) bs
  spikes alpha factor floor (some a) (b ∷ bs) =
      let later =
        spikes alpha factor floor (some (add (mul alpha b) (mul (sub (literal 1 0) alpha) a))) bs in
      if lt floor b
      then (if lt (literal 0 0) a
          then (if lt (mul factor a) b then 1 + later else later)
          else later)
      else later

  -- The detector after the flows, and how many alerts it raises at those of a source.
  abbrev pub after : VolumeSpikeDetector fl → Flows → VolumeSpikeDetector fl
  after det [] = det
  after det ((key, stats, now) ∷ flows) = after (on_flow fl det key stats now).0 flows

  abbrev pub alerts_by : ℕ → VolumeSpikeDetector fl → Flows → ℕ
  alerts_by src det [] = 0
  alerts_by src det ((key, stats, now) ∷ flows) =
      let step = on_flow fl det key stats now in
      let later = alerts_by src step.0 flows in
      if key.src_ip == src then length step.1 + later else later

  -- What the description says of the detector from an average on.
  Agrees : ℕ → VolumeSpikeDetector fl → Flows → Option F64 → Type 0
  Agrees src det flows avg =
      (alerts_by src det flows
        ≡ spikes det.alpha det.spike_factor det.floor_bytes avg (bytes_of src flows))
      × (get src (after det flows).ewma ≡ averaged det.alpha avg (bytes_of src flows))

  -- One value: whether it is reported, and the average after it.
  spikes-step :
      (det : VolumeSpikeDetector fl) (src now : ℕ) (b : F64) (avg : Option F64) (bs : List F64)
      (raised later : ℕ)
      → raised ≡ length (spike_alerts fl det src now b avg)
      → later
        ≡ spikes det.alpha det.spike_factor det.floor_bytes (some (new_average fl det avg b)) bs
      → raised + later ≡ spikes det.alpha det.spike_factor det.floor_bytes avg (b ∷ bs)
  unfolding new_average is_spike spike_alerts
  spikes-step det src now b none bs raised later here rest = omega (arith, here, rest)
  spikes-step det src now b (some a) bs raised later here rest = ground (arith, here, rest)

  averaged-step :
      (det : VolumeSpikeDetector fl) (b : F64) (avg : Option F64) (bs : List F64)
      → averaged det.alpha (some (new_average fl det avg b)) bs ≡ averaged det.alpha avg (b ∷ bs)
  unfolding new_average
  averaged-step det b none bs = refl
  averaged-step det b (some a) bs = refl

  detector-Agrees :
      (det : VolumeSpikeDetector fl) (flows : Flows) (src : ℕ)
      → Agrees src det flows (get src det.ewma)
  unfolding Agrees on_flow
  detector-Agrees det [] src = (refl, refl)
  detector-Agrees det ((key, stats, now) ∷ flows) src =
      let next = (on_flow fl det key stats now).0 in
      let bytes = of_int stats.bytes in
      let average = new_average fl det (get key.src_ip det.ewma) bytes in
      let seen : get src next.ewma
          ≡ (if key.src_ip == src then some average else get src det.ewma) =
        get-insert key.src_ip src average det.ewma in
      elim (Bool-cases (key.src_ip == src)) [
        | inl mine ↦
            let same : key.src_ip ≡ src = (==_iff key.src_ip src).0 mine in
            let (alerts, kept) : Agrees src next flows (some average) =
              subst (Agrees src next flows) (rw mine at seen) (detector-Agrees next flows src) in
            subst (Agrees src det ((key, stats, now) ∷ flows)) (ap (λ ip. get ip det.ewma) same) (
              rw mine (
                  spikes-step det key.src_ip now bytes (get key.src_ip det.ewma)
                    (bytes_of src flows) _ _ refl alerts),
              rw mine
                  (kept ∙ averaged-step det bytes (get key.src_ip det.ewma) (bytes_of src flows)),
            )
        | inr other ↦
            let h : Agrees src next flows (get src det.ewma) =
              subst (Agrees src next flows) (rw other at seen) (detector-Agrees next flows src) in
            rw other h
      ]

  -- Whatever flows come, the average that the detector keeps of a source is the weighted average of
  -- the bytes of the flows of that source, on the one before; and at the flows of the source there are
  -- as many alerts as there are values among those bytes that are above the floor and above
  -- `spike_factor` times a positive average of the values before. Other sources change neither.
  pub alerts_by-spikes :
      (det : VolumeSpikeDetector fl) (flows : Flows) (src : ℕ)
      → (alerts_by src det flows
          ≡ spikes det.alpha det.spike_factor det.floor_bytes
              (get src det.ewma)
              (bytes_of src flows))
        × (get src (after det flows).ewma
            ≡ averaged det.alpha (get src det.ewma) (bytes_of src flows))
  unfolding Agrees
  alerts_by-spikes det flows src = detector-Agrees det flows src
