-- ===== src/Storage/Sqlite/Upsert.antt =====
-- What is stored of a device is loaded again.
use lanscope.Registry.{Device}
use lanscope.Storage.Sqlite.{
  Tables, upsert_device, DeviceRow, upsert_row, load_devices, row_of, device_of, as_u64, as_i64,
  Json,
}
use lanscope.Base.Text.{Bytes}
use lanscope.Base.{
  ◌&&◌, false, ==_iff, true, Bool, map, arith, inr, nat_Eq, list_Eq, inl, ltb, [], ◌==◌, refl,
  Bool-cases, ◌^◌, if◌then◌else◌, ◌∷◌, ◌<◌, ◌≡◌, ℕ, some, none, List, Option,
}

-- `serde_json` reads back what it writes.
abbrev pub IsJson : Json → Type 0
IsJson json =
    (texts : List Bytes)
    → (s : Bytes) × (json.to_string texts ≡ some s) × (json.from_string s ≡ some texts)

-- The first device with the MAC.
abbrev pub find_device : Bytes → List Device → Option Device
find_device mac [] = none
find_device mac (d ∷ devices) = if d.mac == mac then some d else find_device mac devices

-- When the device was first seen, if it is known.
abbrev pub first_seen_of : Option Device → Device → Device
first_seen_of none d = d
first_seen_of (some old) d = record d { first_seen = old.first_seen }

as_u64-as_i64 : (n : ℕ) → n < 2 ^ 64 → as_u64 (as_i64 n) ≡ n
unfolding as_i64 as_u64
as_u64-as_i64 n h = elim (Bool-cases (ltb n (2 ^ 63))) [
  | inl small ↦ rw small refl
  | inr large ↦ rw large (omega (arith, h))
]

same_test :
    (x y z : Option Device) (c : Bool)
    → (if c then x else y) ≡ (if c then x else (if c then z else y))
same_test x y z true = refl
same_test x y z false = refl

swap_tests :
    (x y z : Option Device) (c e : Bool)
    → c && e ≡ false
    → (if c then x else (if e then y else z)) ≡ (if e then y else (if c then x else z))
swap_tests x y z true true h = absurd (ground (arith, h))
swap_tests x y z true false h = refl
swap_tests x y z false e h = refl

module _ (json : Json) where
  pub device_of-row_of :
      (d : Device)
      → IsJson json
      → d.packets < 2 ^ 64
      → d.bytes < 2 ^ 64
      → device_of json (row_of json d) ≡ d
  unfolding device_of row_of
  device_of-row_of d j p b =
      let (i, wi, ri) = j d.ips in
      let (s, ws, rs) = j d.services in
      rw (wi, ws, ri, rs, as_u64-as_i64 d.packets p, as_u64-as_i64 d.bytes b) refl

  row_of-mac : (d : Device) → (row_of json d).mac ≡ d.mac
  unfolding row_of
  row_of-mac d = refl

  device_of-mac : (row : DeviceRow) → (device_of json row).mac ≡ row.mac
  unfolding device_of
  device_of-mac row = refl

  device_of-first_seen : (row : DeviceRow) → (device_of json row).first_seen ≡ row.first_seen
  unfolding device_of
  device_of-first_seen row = refl

  module _ (d : Device) (j : IsJson json) (p : d.packets < 2 ^ 64) (b : d.bytes < 2 ^ 64) where
    device_of-kept :
        (t : ℕ)
        → device_of json (record (row_of json d) { first_seen = t }) ≡ record d { first_seen = t }
    unfolding row_of
    device_of-kept t = device_of-row_of (record d { first_seen = t }) j p b

    upsert_row-find :
        (m : Bytes) (rows : List DeviceRow)
        → find_device m (map (device_of json) (upsert_row (row_of json d) rows)) ≡ (
            if d.mac == m
            then some (first_seen_of (find_device d.mac (map (device_of json) rows)) d)
            else find_device m (map (device_of json) rows))
    unfolding upsert_row
    upsert_row-find m [] = rw (device_of-row_of d j p b) refl
    upsert_row-find m (row ∷ rows) = elim (Bool-cases (row.mac == d.mac)) [
      | inl same ↦
          let kept : row.mac == (row_of json d).mac ≡ true = rw (row_of-mac d) same in
          rw
            (
              kept,
              device_of-kept row.first_seen,
              device_of-mac row,
              same,
              device_of-first_seen row,
              (==_iff row.mac d.mac).0 same,
            )
            (same_test _ _ _ (d.mac == m))
      | inr other ↦
          let moved : row.mac == (row_of json d).mac ≡ false = rw (row_of-mac d) other in
          rw (moved, upsert_row-find m rows, device_of-mac row, other)
            (swap_tests _ _ _ (row.mac == m) (d.mac == m)
              (ground (arith, other, ==_iff row.mac m, ==_iff d.mac m, ==_iff row.mac d.mac)))
    ]

  -- Where the texts of the lists are read back as they were and the counters fit in 64 bits: after a
  -- device is stored, loading finds it under its MAC as it is, but with the time at which the stored
  -- one was first seen if there was one; and under any other MAC it finds what it found before.
  pub upsert_device-load :
      (db : Tables) (d : Device) (m : Bytes)
      → IsJson json
      → d.packets < 2 ^ 64
      → d.bytes < 2 ^ 64
      → find_device m (load_devices json (upsert_device json db d)) ≡ (
          if d.mac == m
          then some (first_seen_of (find_device d.mac (load_devices json db)) d)
          else find_device m (load_devices json db))
  unfolding load_devices upsert_device
  upsert_device-load db d m j p b = upsert_row-find d j p b m db.devices
