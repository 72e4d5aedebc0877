-- ===== src/App/Exporter/Exported.antt =====
-- What the exporter shows of the traffic after a run of the loop.
use mathlib.Core.Path.{subst}
use lanscope.Base.{sym, ℕ, ◌+◌, ◌%◌, ◌^◌, ◌<◌, ◌≡◌, ◌≢◌, ◌∙◌, ap, arith, List, [], ◌∷◌, length}
use lanscope.Base.Text.{Bytes}
use lanscope.Base.Float.{Floats}
use lanscope.Anomaly.Onnx.{Inference}
use lanscope.Storage.{Store}
use lanscope.Alert.{Severity, as_str}
use lanscope.App.{Metric, device_count, flow_recorded, alert_recorded, Pipeline}
use lanscope.App.Loop.{Input, capture_loop}
use lanscope.App.Exporter.{Recorder, Key, flow_packets, flow_bytes, alerts_by, perform, perform_all}
use lanscope.App.Exporter.Counted.{recorded, in_inputs, final, capture_loop-counts}

-- What the documentation of `metrics` and of its recorder says: a counter grows by what it is
-- incremented by, on 64 bits, and no other call changes it.
pub record IsRecorder (rec : Recorder) : Type 0 where
  pub gauge_keeps :
      (s : rec.State) (name : Bytes) (n : ℕ) (key : Key)
      → rec.counter (rec.set_gauge s name n) key ≡ rec.counter s key
  pub increments :
      (s : rec.State) (key : Key) (n : ℕ)
      → rec.counter (rec.increment s key n) key ≡ (rec.counter s key + n) % 2 ^ 64
  pub keeps :
      (s : rec.State) (key other : Key) (n : ℕ)
      → key ≢ other
      → rec.counter (rec.increment s key n) other ≡ rec.counter s other

-- The keys of the traffic, with what they take of a flow.
pub data Traffic : Key → (ℕ → ℕ → ℕ) → Type 0 where
  of_packets : Traffic flow_packets (λ packets bytes. packets)
  of_bytes : Traffic flow_bytes (λ packets bytes. bytes)

some_label : {s : Bytes} {rest : List Bytes} → s ∷ rest ≡ [] → ⊥
some_label h = cc

wrap : (c n r : ℕ) → ((c + n) % 2 ^ 64 + r) % 2 ^ 64 ≡ (c + (n + r)) % 2 ^ 64
wrap c n r = omega arith

module _ (rec : Recorder) (documented : IsRecorder rec) where
  open rec use {State, counter}

  flow-counter :
      (s : State) {key : Key} {pick : ℕ → ℕ → ℕ} (packets bytes : ℕ)
      → Traffic key pick
      → counter (perform rec s (flow_recorded packets bytes)) key
        ≡ (counter s key + pick packets bytes) % 2 ^ 64
  unfolding perform
  flow-counter s packets bytes of_packets =
      documented.keeps (rec.increment s flow_packets packets) flow_bytes flow_packets bytes
        (λ h. absurd (omega (arith, ap (λ k. length k.name) h)))
      ∙ documented.increments s flow_packets packets
  flow-counter s packets bytes of_bytes =
      documented.increments (rec.increment s flow_packets packets) flow_bytes bytes
      ∙ ap (λ c. (c + bytes) % 2 ^ 64)
          (documented.keeps s flow_packets flow_bytes packets
            (λ h. absurd (omega (arith, ap (λ k. length k.name) h))))

  alert-counter :
      (s : State) {key : Key} {pick : ℕ → ℕ → ℕ} (severity : Severity)
      → Traffic key pick
      → counter (perform rec s (alert_recorded severity)) key ≡ counter s key
  unfolding perform
  alert-counter s severity of_packets =
      documented.keeps s (alerts_by (as_str severity)) flow_packets 1
        (λ h. absurd (some_label (ap (λ k. k.labels) h)))
  alert-counter s severity of_bytes =
      documented.keeps s (alerts_by (as_str severity)) flow_bytes 1
        (λ h. absurd (some_label (ap (λ k. k.labels) h)))

  perform_all-counter :
      (s : State) {key : Key} {pick : ℕ → ℕ → ℕ} (metrics : List Metric)
      → Traffic key pick
      → counter s key < 2 ^ 64
      → counter (perform_all rec s metrics) key ≡ (counter s key + recorded pick metrics) % 2 ^ 64
  unfolding perform
  perform_all-counter s [] traffic small = omega (arith, small)
  perform_all-counter s {key} {pick} (device_count n ∷ metrics) traffic small =
      perform_all-counter (perform rec s (device_count n)) metrics traffic
        (subst (λ c. c < 2 ^ 64) (sym (documented.gauge_keeps s _ n key)) small)
      ∙ ap (λ c. (c + recorded pick metrics) % 2 ^ 64) (documented.gauge_keeps s _ n key)
  perform_all-counter s {key} {pick} (flow_recorded packets bytes ∷ metrics) traffic small =
      perform_all-counter (perform rec s (flow_recorded packets bytes)) metrics traffic
        (omega (arith, flow-counter s packets bytes traffic))
      ∙ ap (λ c. (c + recorded pick metrics) % 2 ^ 64) (flow-counter s packets bytes traffic)
      ∙ wrap (counter s key) (pick packets bytes) (recorded pick metrics)
  perform_all-counter s {key} {pick} (alert_recorded severity ∷ metrics) traffic small =
      perform_all-counter (perform rec s (alert_recorded severity)) metrics traffic
        (subst (λ c. c < 2 ^ 64) (sym (alert-counter s severity traffic)) small)
      ∙ ap (λ c. (c + recorded pick metrics) % 2 ^ 64) (alert-counter s severity traffic)

  -- Where the recorder counts as it is documented to and from zero, and the loop starts with no
  -- metrics: after whatever inputs the counters of packets and of bytes show the sum over the flows
  -- of the snapshots that were received before the loop has returned, on 64 bits.
  pub capture_loop-exported :
      (fl : Floats) (inf : Inference fl) (st : Store) (p : Pipeline fl inf st) (n : ℕ)
      (inputs : List Input) (s : State) (key : Key) (pick : ℕ → ℕ → ℕ)
      → p.metrics ≡ []
      → counter s key ≡ 0
      → Traffic key pick
      → counter
          (perform_all rec s (final fl inf st pick (capture_loop fl inf st p n inputs)).metrics)
          key
        ≡ in_inputs pick inputs % 2 ^ 64
  capture_loop-exported fl inf st p n inputs s key pick fresh zero_count traffic =
      perform_all-counter s (final fl inf st pick (capture_loop fl inf st p n inputs)).metrics
        traffic (omega (arith, zero_count))
      ∙ ap (λ t. t % 2 ^ 64)
          (omega (
            arith,
            zero_count,
            capture_loop-counts fl inf st pick p n inputs,
            ap (recorded pick) fresh,
          ))
