-- ===== src/Storage/Sqlite/Recent.antt =====
-- The alert that was recorded last comes first.
use lanscope.Base.{
  ◌∙◌, take, map, ap, inr, inl, suc, refl, leb, le→leb, [], Bool-cases, ◌≡◌, ◌∷◌, ◌≤◌, All, List, ℕ,
}
use lanscope.Storage.Sqlite.{
  row_of_alert, Tables, unwrap_severity, alert_of_row, record_alert, AlertRow, recent_alerts,
  order_by_ts, insert_ts,
}
use lanscope.Alert.{Alert, Severity-names}

All-insert_ts :
    (t : ℕ) (a : AlertRow) (rows : List AlertRow)
    → a.ts ≤ t
    → All (λ b. b.ts ≤ t) rows
    → All (λ b. b.ts ≤ t) (insert_ts a rows)
unfolding insert_ts
All-insert_ts t a [] le h = (le, tt)
All-insert_ts t a (b ∷ rows) le h = elim (Bool-cases (leb b.ts a.ts)) [
  | inl before ↦ rw before (le, h)
  | inr after ↦ rw after (h.0, All-insert_ts t a rows le h.1)
]

All-order_by_ts :
    (t : ℕ) (rows : List AlertRow)
    → All (λ b. b.ts ≤ t) rows
    → All (λ b. b.ts ≤ t) (order_by_ts rows)
unfolding order_by_ts
All-order_by_ts t [] h = tt
All-order_by_ts t (b ∷ rows) h =
    All-insert_ts t b (order_by_ts rows) h.0 (All-order_by_ts t rows h.1)

insert_ts-front :
    (a : AlertRow) (rows : List AlertRow)
    → All (λ b. b.ts ≤ a.ts) rows
    → insert_ts a rows ≡ a ∷ rows
unfolding insert_ts
insert_ts-front a [] h = refl
insert_ts-front a (b ∷ rows) h = rw (le→leb b.ts a.ts h.0) refl

alert_of_row-row_of_alert : (a : Alert) → alert_of_row (row_of_alert a) ≡ a
unfolding alert_of_row unwrap_severity row_of_alert
alert_of_row-row_of_alert a = rw (Severity-names a.severity []).0 refl

-- Where no alert that is stored is later: once an alert is recorded, the most recent alerts are that
-- alert, as it was, and then those that were the most recent before, one fewer.
pub recent_alerts-record_alert :
    (db : Tables) (a : Alert) (limit : ℕ)
    → All (λ b. b.ts ≤ a.ts) db.alerts
    → recent_alerts (record_alert db a) (suc limit) ≡ a ∷ recent_alerts db limit
unfolding recent_alerts record_alert order_by_ts
recent_alerts-record_alert db a limit h =
    ap (λ rows. map alert_of_row (take (suc limit) rows))
      (insert_ts-front (row_of_alert a) (order_by_ts db.alerts) (All-order_by_ts a.ts db.alerts h))
    ∙ ap (λ b. b ∷ recent_alerts db limit) (alert_of_row-row_of_alert a)
