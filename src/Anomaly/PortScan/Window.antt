-- ===== src/Anomaly/PortScan/Window.antt =====
-- How often a source is reported within one window.
use lanscope.Base.Distinct.{Distinct-concat, Distinct}
use mathlib.Core.Path.{subst}
use lanscope.Base.Dict.{insert-insert, insert, get-insert_ne, get-insert_self, get}
use lanscope.Common.Flow.{FlowKey}
use lanscope.Base.{
  contains, ap, none, ◌∙◌, inr, ==_iff, inl, ◌≢◌, ◌||◌, refl, Bool-cases, ◌<◌, nat_Eq, false, ◌==◌,
  some, length-append, leb, [], ◌≡◌, ◌+◌, if◌then◌else◌, arith, ◌≤◌, ◌∷◌, length, Bool, All, ℕ,
  List,
}
use lanscope.Anomaly.PortScan.{
  fresh, ScanState, PortScanDetector, roll, insert_port, decide, scan_step, on_flow,
}

abbrev pub Flows : Type 0
Flows = List (FlowKey × ℕ)

-- The alerts raised at the flows of one source, while the detector sees flows of any source.
unfoldable pub alerts_by : ℕ → PortScanDetector → Flows → ℕ
alerts_by src det [] = 0
alerts_by src det ((key, now) ∷ flows) =
    let (det', alerts) = on_flow det key now in
    (if key.src_ip == src then length alerts else 0) + alerts_by src det' flows

-- The distinct ports that the source contacts, after those of `ports`.
pub ports_after : ℕ → List ℕ → Flows → List ℕ
ports_after src ports [] = ports
ports_after src ports ((key, now) ∷ flows) =
    ports_after src (if key.src_ip == src then insert_port key.dst_port ports else ports) flows

-- The flows of the source fall into the window that began at `start`.
abbrev pub InWindow : ℕ → ℕ → ℕ → Flows → Type 0
InWindow src start window = All (λ f. f.0.src_ip ≡ src → f.1 ≤ start + window)

pub insert_port-length :
    (port : ℕ) (ports : List ℕ) → length ports ≤ length (insert_port port ports)
unfolding insert_port
insert_port-length port ports = ground (arith, length-append ports (port ∷ []))

ports_after-length :
    (src : ℕ) (ports : List ℕ) (flows : Flows) → length ports ≤ length (ports_after src ports flows)
unfolding ports_after
ports_after-length src ports [] = omega arith
ports_after-length src ports ((key, now) ∷ flows) = ground (
  arith,
  ports_after-length src (insert_port key.dst_port ports) flows,
  ports_after-length src ports flows,
  insert_port-length key.dst_port ports,
)

-- Inside the window a flow adds its port, and the number of ports decides.
module _ (det : PortScanDetector) (key : FlowKey) (now : ℕ) (s : ScanState) where
  abbrev pub after : ScanState
  after = (scan_step det key now s).0

  abbrev ports_now : List ℕ
  ports_now = insert_port key.dst_port s.ports

  pub scan_step_inside :
      now ≤ s.window_start + det.window_secs
      → (after.window_start ≡ s.window_start)
        × (after.ports ≡ ports_now)
        × (after.alerted ≡ (s.alerted || leb det.threshold (length ports_now)))
        × (length (scan_step det key now s).1
            ≡ (if s.alerted then 0 else if leb det.threshold (length ports_now) then 1 else 0))
  unfolding scan_step roll decide
  scan_step_inside h = ground arith

  pub on_flow_self :
      get key.src_ip det.seen ≡ some s
      → (get key.src_ip (on_flow det key now).0.seen ≡ some after)
        × ((on_flow det key now).1 ≡ (scan_step det key now s).1)
  unfolding on_flow
  on_flow_self known = rw (known, on_flow) (get-insert_self key.src_ip after det.seen, refl)

module _ (det : PortScanDetector) (key : FlowKey) (now : ℕ) where
  pub on_flow_other :
      (src : ℕ) → key.src_ip ≢ src → get src (on_flow det key now).0.seen ≡ get src det.seen
  unfolding on_flow
  on_flow_other src h = get-insert_ne key.src_ip src _ det.seen h

  pub on_flow_settings :
      ((on_flow det key now).0.window_secs ≡ det.window_secs)
      × ((on_flow det key now).0.threshold ≡ det.threshold)
  unfolding on_flow
  on_flow_settings = (refl, refl)

-- How many more alerts the source raises from a state inside its window.
abbrev expected : ℕ → Bool → ℕ → ℕ
expected threshold alerted ports = if alerted then 0 else if leb threshold ports then 1 else 0

alerts_by-state :
    (window threshold src : ℕ) (det : PortScanDetector) (flows : Flows) (s : ScanState)
    → det.window_secs ≡ window
    → det.threshold ≡ threshold
    → get src det.seen ≡ some s
    → InWindow src s.window_start window flows
    → (s.alerted ≡ false → length s.ports < threshold)
    → alerts_by src det flows
      ≡ expected threshold s.alerted (length (ports_after src s.ports flows))
unfolding alerts_by ports_after
alerts_by-state window threshold src det [] s ew et known inside few = ground arith
alerts_by-state window threshold src det ((key, now) ∷ flows) s ew et known inside few =
    elim (Bool-cases (key.src_ip == src)) [
      | inl mine ↦
          let same = (==_iff key.src_ip src).0 mine in
          let (kept, raised) = on_flow_self det key now s (rw same known) in
          let q = after det key now s in
          let in_time : now ≤ s.window_start + det.window_secs = rw ew (inside.0 same) in
          let (start, ports, flag, count) = scan_step_inside det key now s in_time in
          let rest : alerts_by src (on_flow det key now).0 flows
              ≡ expected threshold q.alerted (length (ports_after src q.ports flows)) =
            alerts_by-state window threshold src (on_flow det key now).0 flows q
              ((on_flow_settings det key now).0 ∙ ew) ((on_flow_settings det key now).1 ∙ et)
              (subst (λ k. get k (on_flow det key now).0.seen ≡ some q) same kept)
              (rw start inside.1) (λ e. ground (arith, et, ports, flag, e)) in
          rw (mine, raised)
            (ground (
              arith,
              et,
              ports,
              flag,
              count,
              rest,
              few,
              ports_after-length src (insert_port key.dst_port s.ports) flows,
            ))
      | inr foreign ↦
          let apart : key.src_ip ≢ src = λ e. cc (foreign, (==_iff key.src_ip src).1 e) in
          rw foreign (
            omega (
              arith,
              alerts_by-state window threshold src (on_flow det key now).0 flows s
                  ((on_flow_settings det key now).0 ∙ ew) ((on_flow_settings det key now).1 ∙ et)
                  (on_flow_other det key now src apart ∙ known) inside.1 few,
            ))
    ]

-- A source that is not known yet is taken as one with a window that begins now.
abbrev pub known_at : PortScanDetector → ℕ → ℕ → PortScanDetector
known_at det src now = record det { seen = insert src (fresh now) det.seen }

pub on_flow_new :
    (det : PortScanDetector) (key : FlowKey) (now : ℕ)
    → get key.src_ip det.seen ≡ none
    → on_flow det key now ≡ on_flow (known_at det key.src_ip now) key now
unfolding on_flow
on_flow_new det key now new =
    rw (new, on_flow)
      (rw (get-insert_self key.src_ip (fresh now) det.seen, on_flow)
        (rw (insert-insert key.src_ip _ (fresh now) det.seen)))

pub insert_port-Distinct :
    (port : ℕ) (ports : List ℕ) → Distinct ports → Distinct (insert_port port ports)
unfolding insert_port
insert_port-Distinct port ports d = elim (Bool-cases (contains ports port)) [
  | inl old ↦ rw old d
  | inr new ↦ rw new (Distinct-concat ports port new d)
]

ports_after-Distinct :
    (src : ℕ) (flows : Flows) (ports : List ℕ)
    → Distinct ports
    → Distinct (ports_after src ports flows)
unfolding ports_after
ports_after-Distinct src [] ports d = d
ports_after-Distinct src ((key, now) ∷ flows) ports d = elim (Bool-cases (key.src_ip == src)) [
  | inl mine ↦
      rw mine (ports_after-Distinct src flows _ (insert_port-Distinct key.dst_port ports d))
  | inr foreign ↦ rw foreign (ports_after-Distinct src flows ports d)
]

-- While the flows of a source that was not seen before fall into one window, and the threshold is
-- not zero, the source is reported exactly once if it contacts
-- at least `threshold` distinct ports, and never otherwise, whatever the other
-- sources do; and the ports that are counted are distinct.
pub scan_exact :
    (det : PortScanDetector) (key : FlowKey) (now : ℕ) (flows : Flows)
    → get key.src_ip det.seen ≡ none
    → 0 < det.threshold
    → InWindow key.src_ip now det.window_secs flows
    → (alerts_by key.src_ip det ((key, now) ∷ flows) ≡ (
        if leb det.threshold (length (ports_after key.src_ip [] ((key, now) ∷ flows)))
        then 1
        else 0))
      × Distinct (ports_after key.src_ip [] ((key, now) ∷ flows))
unfolding alerts_by
scan_exact det key now flows new positive inside =
    let src = key.src_ip in
    let det' = known_at det src now in
    (
      ap (λ p. (if src == src then length p.1 else 0) + alerts_by src p.0 flows)
            (on_flow_new det key now new)
          ∙ alerts_by-state det.window_secs det.threshold src det' ((key, now) ∷ flows) (fresh now)
              refl refl (get-insert_self src (fresh now) det.seen) ((λ _. omega arith), inside)
              (λ _. positive),
      ports_after-Distinct src ((key, now) ∷ flows) [] tt,
    )
