-- ===== src/Anomaly/PortScan/Reference.antt =====
-- The port scan detector beside a description that puts the flows of a source into windows first.
use mathlib.Core.Path.{subst}
use lanscope.Base.Distinct.{Distinct}
use lanscope.Base.Dict.{get-insert_self, get}
use lanscope.Common.Flow.{FlowKey}
use lanscope.Anomaly.PortScan.{
  fresh, on_flow, decide, roll, scan_step, insert_port, ScanState, PortScanDetector,
}
use lanscope.Base.{
  true, false, ◌||◌, ◌≤◌, sym, Bool, ◌≢◌, ==_iff, some, ◌+◌, nat_Eq, ltb, ◌==◌, length, ◌<◌, leb,
  [], none, if◌then◌else◌, ◌∷◌, List, ℕ, arith, ◌≡◌, refl, ◌∙◌, ap, inl, inr, Bool-cases, All,
}
use lanscope.Anomaly.PortScan.Window.{
  scan_step_inside, Flows, alerts_by, after, on_flow_self, on_flow_other, on_flow_settings,
  on_flow_new, known_at, insert_port-length, insert_port-Distinct,
}

-- The distinct ports of the source in each of its windows: the one that began at `start` with
-- `ports`, and those after it. A flow later than the end of a window begins the next one.
abbrev pub windows : ℕ → ℕ → ℕ → List ℕ → Flows → List (List ℕ)
windows src window start ports [] = ports ∷ []
windows src window start ports ((key, now) ∷ flows) =
    let elsewhere = windows src window start ports flows in
    let inside = windows src window start (insert_port key.dst_port ports) flows in
    let next = ports ∷ windows src window now (insert_port key.dst_port []) flows in
    if key.src_ip == src then (if ltb (start + window) now then next else inside) else elsewhere

-- How many of the windows have at least so many ports.
abbrev pub count_full : ℕ → List (List ℕ) → ℕ
count_full threshold [] = 0
count_full threshold (ports ∷ rest) =
    (if leb threshold (length ports) then 1 else 0) + count_full threshold rest

abbrev one_if : Bool → ℕ
one_if b = if b then 1 else 0

still_full :
    (threshold few more : ℕ)
    → few ≤ more
    → (leb threshold few || leb threshold more) ≡ leb threshold more
still_full threshold few more le = ground (arith, le)

reports_once :
    (before now : Bool)
    → (if before then 0 else if now then 1 else 0) + one_if before ≡ one_if (before || now)
reports_once true now = refl
reports_once false true = refl
reports_once false false = refl

-- A flow after the window of the state.
module _ (det : PortScanDetector) (key : FlowKey) (now : ℕ) (s : ScanState) where
  scan_step_next :
      s.window_start + det.window_secs < now
      → let ports = insert_port key.dst_port [] in
        let q = after det key now s in
        (q.window_start ≡ now)
        × (q.ports ≡ ports)
        × (q.alerted ≡ leb det.threshold (length ports))
        × (length (scan_step det key now s).1 ≡ (if leb det.threshold (length ports) then 1 else 0))
  unfolding scan_step roll decide
  scan_step_next h = ground arith

alerts_by-windows :
    (window threshold src : ℕ) (det : PortScanDetector) (flows : Flows) (s : ScanState)
    → det.window_secs ≡ window
    → det.threshold ≡ threshold
    → get src det.seen ≡ some s
    → s.alerted ≡ leb threshold (length s.ports)
    → alerts_by src det flows + one_if s.alerted
      ≡ count_full threshold (windows src window s.window_start s.ports flows)
unfolding alerts_by
alerts_by-windows window threshold src det [] s ew et known flag = rw flag (omega arith)
alerts_by-windows window threshold src det ((key, now) ∷ flows) s ew et known flag =
    elim (Bool-cases (key.src_ip == src)) [
      | inl mine ↦
          let same = (==_iff key.src_ip src).0 mine in
          let (kept, raised) = on_flow_self det key now s (rw same known) in
          let q = after det key now s in
          let here = subst (λ k. get k (on_flow det key now).0.seen ≡ some q) same kept in
          let later = λ (full : q.alerted ≡ leb threshold (length q.ports)).
            alerts_by-windows window threshold src (on_flow det key now).0 flows q
              ((on_flow_settings det key now).0 ∙ ew) ((on_flow_settings det key now).1 ∙ et) here
              full in
          elim (Bool-cases (ltb (s.window_start + window) now)) [
            | inl over ↦
                let first = insert_port key.dst_port [] in
                let (start, ports, full, count) =
                  scan_step_next det key now s (ground (arith, ew, over)) in
                let full_now : q.alerted ≡ leb threshold (length q.ports) =
                  full
                  ∙ ap (λ t. leb t (length first)) et
                  ∙ ap (λ ps. leb threshold (length ps)) (sym ports) in
                let rest : alerts_by src (on_flow det key now).0 flows + one_if q.alerted
                    ≡ count_full threshold (windows src window now first flows) =
                  later full_now
                  ∙ ap (λ t. count_full threshold (windows src window t q.ports flows)) start
                  ∙ ap (λ ps. count_full threshold (windows src window now ps flows)) ports in
                rw (mine, over, raised)
                  (omega (arith, rest, count ∙ ap one_if (sym full), ap one_if flag))
            | inr inside ↦
                let more = insert_port key.dst_port s.ports in
                let (start, ports, full, count) =
                  scan_step_inside det key now s (ground (arith, ew, inside)) in
                let full_now : q.alerted ≡ leb threshold (length q.ports) =
                  full
                  ∙ ap (λ t. s.alerted || leb t (length more)) et
                  ∙ ap (λ b. b || leb threshold (length more)) flag
                  ∙ still_full threshold (length s.ports) (length more)
                      (insert_port-length key.dst_port s.ports)
                  ∙ ap (λ ps. leb threshold (length ps)) (sym ports) in
                let rest : alerts_by src (on_flow det key now).0 flows + one_if q.alerted
                    ≡ count_full threshold (windows src window s.window_start more flows) =
                  later full_now
                  ∙ ap (λ t. count_full threshold (windows src window t q.ports flows)) start
                  ∙ ap (λ ps. count_full threshold (windows src window s.window_start ps flows))
                      ports in
                let reported =
                  ap (λ n. n + one_if s.alerted) count
                  ∙ reports_once s.alerted (leb det.threshold (length more))
                  ∙ ap one_if (sym full) in
                rw (mine, inside, raised) (omega (arith, rest, reported))
          ]
      | inr foreign ↦
          let apart : key.src_ip ≢ src = λ e. cc (foreign, (==_iff key.src_ip src).1 e) in
          rw foreign (
            omega (
              arith,
              alerts_by-windows window threshold src (on_flow det key now).0 flows s
                  ((on_flow_settings det key now).0 ∙ ew) ((on_flow_settings det key now).1 ∙ et)
                  (on_flow_other det key now src apart ∙ known) flag,
            ))
    ]

windows-Distinct :
    (src window start : ℕ) (flows : Flows) (ports : List ℕ)
    → Distinct ports
    → All Distinct (windows src window start ports flows)
windows-Distinct src window start [] ports d = (d, tt)
windows-Distinct src window start ((key, now) ∷ flows) ports d =
    elim (Bool-cases (key.src_ip == src)) [
      | inl mine ↦ elim (Bool-cases (ltb (start + window) now)) [
        | inl over ↦
            rw (mine, over)
              (
                d,
                windows-Distinct src window now flows (insert_port key.dst_port [])
                    (insert_port-Distinct key.dst_port [] tt),
              )
        | inr inside ↦
            rw (mine, inside)
              (windows-Distinct src window start flows (insert_port key.dst_port ports)
                (insert_port-Distinct key.dst_port ports d))
      ]
      | inr foreign ↦ rw foreign (windows-Distinct src window start flows ports d)
    ]

-- The flows of a source that was not seen before raise as many alerts as the source has windows in
-- which it contacts at least `threshold` distinct ports, where the threshold is not zero, whatever
-- the other sources do; and no port is counted twice in a window.
pub alerts_by-count_full :
    (det : PortScanDetector) (key : FlowKey) (now : ℕ) (flows : Flows)
    → get key.src_ip det.seen ≡ none
    → 0 < det.threshold
    → let all = windows key.src_ip det.window_secs now [] ((key, now) ∷ flows) in
      (alerts_by key.src_ip det ((key, now) ∷ flows) ≡ count_full det.threshold all)
      × All Distinct all
unfolding alerts_by
alerts_by-count_full det key now flows new positive =
    let src = key.src_ip in
    (
      ap (λ p. (if src == src then length p.1 else 0) + alerts_by src p.0 flows)
            (on_flow_new det key now new)
          ∙ omega (
            arith,
            alerts_by-windows det.window_secs det.threshold src (known_at det src now)
                ((key, now) ∷ flows) (fresh now) refl refl
                (get-insert_self src (fresh now) det.seen) (ground (arith, positive)),
          ),
      windows-Distinct key.src_ip det.window_secs now ((key, now) ∷ flows) [] tt,
    )
