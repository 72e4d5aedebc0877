-- ===== src/App/Flush.antt =====
-- What a flush leaves in the tables.
use mathlib.Core.Path.{subst}
use lanscope.Registry.Keys.{get-none_of_fresh, keys_after, keys_after-Distinct}
use lanscope.Anomaly.Onnx.{Inference}
use lanscope.Base.Float.{Floats}
use lanscope.Base.Distinct.{Distinct}
use lanscope.Netfmt.{fmt_mac}
use lanscope.Base.Text.{Bytes}
use lanscope.Storage.Sqlite.{
  sqlite_store, Tables, upsert_device, load_devices, device_of, row_of, DeviceRow, upsert_row, Json,
}
use lanscope.Registry.{Device}
use lanscope.Common.{IsMac, MacAddr}
use lanscope.Base.Dict.{Entries, Dict, get}
use lanscope.Base.{
  sym, ap, ◌∙◌, ==_iff, refl, inr, [], nat_Eq, list_Eq, inl, ◌^◌, ◌==◌, Bool-cases, ◌∷◌, ◌<◌, false,
  map, ◌≡◌, none, contains, some, List, Option,
}
use lanscope.App.{upsert_all}
use lanscope.App.Restart.{found_or, IsMacText, not_same, IsKeyed}
use lanscope.Storage.Sqlite.Upsert.{IsJson, find_device, first_seen_of, upsert_device-load}

-- What the store finds after it got a device, by what it found before.
abbrev pub stored_over : Option Device → Option Device → Option Device
stored_over none old = old
stored_over (some d) old = some (first_seen_of old d)

-- A device of the registry that can be stored as it is, under its key.
abbrev pub IsStorable : MacAddr → Device → Type 0
IsStorable m d = IsMac m × (d.mac ≡ fmt_mac m) × (d.packets < 2 ^ 64) × (d.bytes < 2 ^ 64)

abbrev macs : List DeviceRow → List Bytes
macs [] = []
macs (row ∷ rows) = row.mac ∷ macs rows

macs-upsert_row :
    (new : DeviceRow) (rows : List DeviceRow)
    → macs (upsert_row new rows) ≡ keys_after (macs rows) new.mac
unfolding upsert_row
macs-upsert_row new [] = refl
macs-upsert_row new (row ∷ rows) = elim (Bool-cases (row.mac == new.mac)) [
  | inl same ↦ rw same (ap (λ k. k ∷ macs rows) (sym ((==_iff row.mac new.mac).0 same)))
  | inr other ↦
      rw (other, macs-upsert_row new rows)
        (elim (Bool-cases (contains (macs rows) new.mac)) [
          | inl old ↦ rw old refl
          | inr fresh ↦ rw fresh refl
        ])
]

pub found_or-none : (o : Option Device) → found_or o none ≡ o
found_or-none none = refl
found_or-none (some d) = refl

module _ (json : Json) where
  macs-load : (rows : List DeviceRow) → map (λ d. d.mac) (map (device_of json) rows) ≡ macs rows
  unfolding device_of
  macs-load [] = refl
  macs-load (row ∷ rows) = ap (λ ks. row.mac ∷ ks) (macs-load rows)

  row_mac : (d : Device) → (row_of json d).mac ≡ d.mac
  unfolding row_of
  row_mac d = refl

  pub upsert_device-IsKeyed :
      (db : Tables) (d : Device)
      → IsMacText d.mac
      → IsKeyed (load_devices json db)
      → IsKeyed (load_devices json (upsert_device json db d))
  unfolding load_devices upsert_device
  upsert_device-IsKeyed db d text (a, ds) =
      let keys = macs-load db.devices in
      let keys' =
        macs-load (upsert_row (row_of json d) db.devices)
        ∙ macs-upsert_row (row_of json d) db.devices
        ∙ ap (keys_after (macs db.devices)) (row_mac d) in
      rw keys'
        (keys_after-Distinct IsMacText (macs db.devices) d.mac (rw keys at a) (rw keys at ds) text)

  -- The store after the devices of a registry are flushed, by what it found before.
  pub upsert_all-find :
      (fl : Floats) (inf : Inference fl) (db : Tables) (devices : Dict MacAddr Device) (m : MacAddr)
      → IsMac m
      → IsJson json
      → Entries IsStorable devices
      → Distinct (map (λ e. e.0) devices)
      → IsKeyed (load_devices json db)
      → let after = upsert_all fl inf (sqlite_store json) db devices in
        IsKeyed (load_devices json after)
        × (find_device (fmt_mac m) (load_devices json after)
            ≡ stored_over (get m devices) (find_device (fmt_mac m) (load_devices json db)))
  unfolding upsert_all get
  upsert_all-find fl inf db [] m h j s ds k = (k, refl)
  upsert_all-find fl inf db ((n, d) ∷ devices) m h j ((hn, named, fp, fb), ss) (fresh, ds) k =
      let db' = upsert_device json db d in
      let (keyed, found) =
        upsert_all-find fl inf (upsert_device json db d) devices m h j ss ds
          (upsert_device-IsKeyed db d (n, hn, named) k) in
      (
        keyed,
        found
            ∙ rw (upsert_device-load json db d (fmt_mac m) j fp fb) (elim (Bool-cases (n == m)) [
              | inl same ↦
                  let eq = (==_iff n m).0 same in
                  let this = named ∙ ap fmt_mac eq in
                  let absent =
                    get-none_of_fresh m devices
                      (subst (λ t. contains (map (λ e. e.0) devices) t ≡ false) eq fresh) in
                  rw (same, absent, (==_iff d.mac (fmt_mac m)).1 this, this) refl
              | inr other ↦ rw (other, not_same d.mac n m named hn h other) refl
            ]),
      )
