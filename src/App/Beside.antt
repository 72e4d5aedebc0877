-- ===== src/App/Beside.antt =====
-- The interface and the loop beside each other, on one dashboard: the steps of the loop and the
-- rounds of the interface in any order. Each holds the lock of the dashboard while it uses it, and a
-- round takes it twice.
use lanscope.Base.Text.{Bytes}
use lanscope.Netfmt.{DateTime}
use lanscope.App.Registered.{handle_event-Reach}
use lanscope.Tui.Content.{device_detail, detail_lines}
use lanscope.Registry.Size.{Reach-len}
use mathlib.Core.Path.{subst}
use lanscope.Tui.Order.{length-sort_by_last_seen}
use lanscope.Common.{zero_mac}
use lanscope.Decode.{decode_event}
use lanscope.Common.Flow.{FlowStats, FlowKey}
use lanscope.App.Loop.{tick}
use lanscope.Alert.{Alert}
use lanscope.Registry.{get_device, DeviceRegistry, len, Change, Device}
use lanscope.Decode.Defs.{Observation}
use lanscope.App.{
  observe_classified, flows, persist_new, process_flow, discovery, handle_flow, emit_alert,
  CaptureEvent, report_device, push_shared, publish_devices, handle_observations,
  handle_observation, handle_flows, handle_event, emit_alerts, Pipeline,
}
use lanscope.Storage.{Store}
use lanscope.Anomaly.Onnx.{Inference}
use lanscope.Tui.{new_dashboard, set_devices, push_alert, Dashboard}
use lanscope.Base.Float.{Floats}
use lanscope.Base.{
  get_elem?_of_lt, ◌<◌, get_elem?, ◌≢◌, length-map, map, nat_Eq, list_Eq, inr, inl, ◌==◌, [], ◌∷◌,
  Bool-cases, List, length, arith, ◌≡◌, ◌∙◌, sym, refl, none, some, Option, ◌≤◌, ℕ,
}
use lanscope.Anomaly.Engine.{on_device, on_flow}
use lanscope.Tui.Loop.{Round, goes_on, round}
use lanscope.Tui.Loop.Fits.{Fits, Fits-le, KeepsToRows, NextFits, round-Fits}

-- How many devices the interface shows.
abbrev pub rows : Option Dashboard → ℕ
rows none = 0
rows (some dash) = length dash.devices

Fits-lt : (i n : ℕ) → Fits (some i) n → n ≢ 0 → i < n
Fits-lt i n (inl first) full = omega (arith, first, full)
Fits-lt i n (inr within) full = within

module _ (fl : Floats) (inf : Inference fl) (st : Store) where
  push_shared-rows :
      (shown : Option Dashboard) (a : Alert) → rows (push_shared fl inf st shown a) ≡ rows shown
  unfolding push_shared push_alert
  push_shared-rows none a = refl
  push_shared-rows (some dash) a = refl

  emit_alerts-rows :
      (p : Pipeline fl inf st) (alerts : List Alert)
      → rows (emit_alerts fl inf st p alerts).dashboard ≡ rows p.dashboard
  unfolding emit_alerts emit_alert
  emit_alerts-rows p [] = refl
  emit_alerts-rows p (a ∷ alerts) =
      emit_alerts-rows (emit_alert fl inf st p a) alerts ∙ push_shared-rows p.dashboard a

  report_device-rows :
      (p : Pipeline fl inf st) (dev : Option Device) (change : Change) (now : ℕ)
      → rows (report_device fl inf st p dev change now).dashboard ≡ rows p.dashboard
  unfolding report_device
  report_device-rows p none change now = refl
  report_device-rows p (some d) change now =
      emit_alerts-rows (record p { stored = persist_new fl inf st p.stored change d })
        (on_device fl inf p.anomaly d change now)

  handle_observation-rows :
      (p : Pipeline fl inf st) (obs : Observation) (now : ℕ)
      → rows (handle_observation fl inf st p obs now).0.dashboard ≡ rows p.dashboard
  unfolding handle_observation
  handle_observation-rows p obs now = elim (Bool-cases (obs.mac == zero_mac)) [
    | inl zero_address ↦ rw zero_address refl
    | inr other ↦
        let e = observe_classified fl inf st p.registry obs now in
        rw other (report_device-rows (record p { registry = e.0 }) (get_device e.0 e.1) e.2 now)
  ]

  handle_observations-rows :
      (p : Pipeline fl inf st) (observations : List Observation) (now : ℕ)
      → rows (handle_observations fl inf st p observations now).0.dashboard ≡ rows p.dashboard
  unfolding handle_observations
  handle_observations-rows p [] now = refl
  handle_observations-rows p (obs ∷ rest) now =
      handle_observations-rows (handle_observation fl inf st p obs now).0 rest now
      ∙ handle_observation-rows p obs now

  handle_flows-rows :
      (p : Pipeline fl inf st) (snapshot : List (FlowKey × FlowStats)) (now : ℕ)
      → rows (handle_flows fl inf st p snapshot now).dashboard ≡ rows p.dashboard
  unfolding handle_flows handle_flow process_flow
  handle_flows-rows p [] now = refl
  handle_flows-rows p ((key, stats) ∷ rest) now =
      handle_flows-rows (handle_flow fl inf st p key stats now) rest now
      ∙ emit_alerts-rows (process_flow fl inf st p key stats now)
          (on_flow fl inf p.anomaly key stats now).1

  handle_event-rows :
      (p : Pipeline fl inf st) (ev : CaptureEvent) (now : ℕ)
      → rows (handle_event fl inf st p ev now).0.dashboard ≡ rows p.dashboard
  unfolding handle_event
  handle_event-rows p (discovery e) now = handle_observations-rows p (decode_event e) now
  handle_event-rows p (flows snapshot) now = handle_flows-rows p snapshot now

  publish_devices-rows :
      (reg : DeviceRegistry) (dash : Dashboard)
      → rows (publish_devices fl inf st reg (some dash)) ≡ len reg
  unfolding publish_devices set_devices len
  publish_devices-rows reg dash =
      length-sort_by_last_seen (map (λ e. e.1) reg.devices) ∙ length-map (λ e. e.1) reg.devices

  -- Steps of the loop: events and ticks of the flush timer.
  pub data Steps (p : Pipeline fl inf st) : Pipeline fl inf st → Type 0 where
    none_yet : Steps p p
    event_handled :
        {q : Pipeline fl inf st}
        → Steps p q
        → (ev : CaptureEvent) (now : ℕ) → Steps p (handle_event fl inf st q ev now).0
    flush_ticked : {q : Pipeline fl inf st} → Steps p q → Steps p (tick fl inf st q)

  -- From a pipeline and a selection: steps of the loop, or a round of the interface that goes on. The
  -- round draws the devices that are published, holding the lock; then the loop may take steps before
  -- the round takes the lock again and reads how many devices there are.
  pub data Beside (p : Pipeline fl inf st) (selected : Option ℕ)
      : Pipeline fl inf st → Option ℕ → Type 0 where
    here : Beside p selected p selected
    steps_taken :
        {q next : Pipeline fl inf st} {row : Option ℕ}
        → Beside p selected q row
        → Steps q next
        → Beside p selected next row
    round_done :
        {q between : Pipeline fl inf st} {row next : Option ℕ}
        → Beside p selected q row
        → (r : Round) → KeepsToRows r.drawn (rows q.dashboard)
        → Steps q between
        → r.len ≡ rows between.dashboard
        → round row r ≡ goes_on next
        → Beside p selected between next

  -- The selection fits what is shown, and what is shown is no more than is known.
  abbrev Shows : Pipeline fl inf st → Option ℕ → Type 0
  Shows p row = Fits row (rows p.dashboard) × (rows p.dashboard ≤ len p.registry)

  tick-rows :
      (q : Pipeline fl inf st) (shown : Option Dashboard)
      → rows shown ≤ len q.registry
      → (rows shown ≤ rows (publish_devices fl inf st q.registry shown))
        × (rows (publish_devices fl inf st q.registry shown) ≤ len q.registry)
  unfolding publish_devices
  tick-rows q none le = (omega arith, le)
  tick-rows q (some dash) le =
      let published = publish_devices-rows q.registry dash in
      (omega (arith, published, le), omega (arith, published))

  -- The loop takes no device away.
  Steps-rows :
      {p q : Pipeline fl inf st}
      → Steps p q
      → rows p.dashboard ≤ len p.registry
      → (rows p.dashboard ≤ rows q.dashboard) × (rows q.dashboard ≤ len q.registry)
  unfolding tick
  Steps-rows none_yet le = (omega arith, le)
  Steps-rows (event_handled {q} s ev now) le =
      let (grown, known) = Steps-rows s le in
      let same = handle_event-rows q ev now in
      (
        omega (arith, grown, same),
        omega (arith, same, known, Reach-len (handle_event-Reach fl inf st q ev now)),
      )
  Steps-rows (flush_ticked {q} s) le =
      let (grown, known) = Steps-rows s le in
      let (more, fewer) = tick-rows q q.dashboard known in (omega (arith, grown, more), fewer)

  Beside-Shows :
      {p : Pipeline fl inf st} {selected : Option ℕ} {q : Pipeline fl inf st} {row : Option ℕ}
      → Beside p selected q row
      → Shows p selected
      → Shows q row
  Beside-Shows here s = s
  Beside-Shows (steps_taken {q} {next} {row} b steps) s =
      let (f, le) = Beside-Shows b s in
      let (grown, known) = Steps-rows steps le in
      (Fits-le row (rows q.dashboard) (rows next.dashboard) grown f, known)
  Beside-Shows (round_done {q} {between} {row} {next} b r keeps steps seen goes) s =
      let (f, le) = Beside-Shows b s in
      let (grown, known) = Steps-rows steps le in
      (
        subst (Fits next) seen (
            subst (λ n. NextFits n r.len) goes
              (round-Fits row r (rows q.dashboard) (omega (arith, grown, seen)) f keeps)),
        known,
      )

  -- The interface starts with an empty dashboard and the first row selected, the table widget keeps
  -- to the rows of the table, and the steps of the loop and the rounds of the interface come in any
  -- order, steps of the loop also between the drawing and the key of a round: whenever there are
  -- devices in the dashboard and a row is selected, that row is of one of them, and the detail shows
  -- that one.
  pub Beside-detail :
      {p q : Pipeline fl inf st} {row : Option ℕ} (calendar : ℕ → Option DateTime)
      (backend mode : Bytes) (dash : Dashboard) (i : ℕ)
      → p.dashboard ≡ some (new_dashboard backend mode)
      → Beside p (some 0) q row
      → q.dashboard ≡ some dash
      → length dash.devices ≢ 0
      → row ≡ some i
      → (d : Device) × (get_elem? dash.devices i ≡ some d)
        × (detail_lines calendar dash row ≡ device_detail calendar d)
  unfolding new_dashboard detail_lines
  Beside-detail {p} {q} {row} calendar backend mode dash i fresh b shown some_device selected =
      let start : Shows p (some 0) =
        subst (λ o. Fits (some 0) (rows o) × (rows o ≤ len p.registry)) (sym fresh)
          (inl refl, omega arith) in
      let fits : Fits (some i) (length dash.devices) =
        subst (λ o. Fits (some i) (rows o)) shown
          (subst (λ r. Fits r (rows q.dashboard)) selected (Beside-Shows b start).0) in
      let (d, found) =
        get_elem?_of_lt dash.devices i (Fits-lt i (length dash.devices) fits some_device) in
      (
        d,
        found,
        subst (λ r. detail_lines calendar dash r ≡ device_detail calendar d) (sym selected)
            (rw (found, detail_lines) refl),
      )
