-- ===== src/App/Synced.antt =====
-- The store and the registry beside each other.
pub mod Handled
pub mod Covered
use lanscope.Base.{
  ◌<◌, inr, ==_iff, inl, ◌==◌, [], sym, refl, nat_Eq, list_Eq, Bool-cases, ◌∙◌, arith, ap, ◌∷◌,
  some, none, map, ◌≡◌, Option, All,
}
use mathlib.Core.Path.{subst}
use lanscope.Common.{zero_mac, IsMac, MacAddr}
use lanscope.Netfmt.{fmt_mac}
use lanscope.Alert.{Alert}
use lanscope.Anomaly.Onnx.{Inference}
use lanscope.Base.Float.{Floats}
use lanscope.Base.Dict.{Dict, Entries, Entries-get, get}
use lanscope.Registry.{Device, DeviceRegistry, get_device}
use lanscope.Registry.Invariant.{IsValid, IsValidDevice}
use lanscope.Registry.Keys.{HasMacKeys, Grows, Kept, keys_of}
use lanscope.Storage.Sqlite.{
  device_of, Json, Tables, load_devices, upsert_device, sqlite_store, record_alert,
}
use lanscope.Storage.Sqlite.Upsert.{IsJson, find_device, first_seen_of, upsert_device-load}
use lanscope.App.Restart.{IsKeyed, not_same, fmt_mac-injective}
use lanscope.App.Flush.{IsStorable, stored_over, upsert_device-IsKeyed, upsert_all-find}
use lanscope.App.{upsert_all, flush_all}

-- What is stored is known, with the time at which it was first seen.
abbrev pub Agrees : Option Device → Option Device → Type 0
Agrees none none = Unit
Agrees none (some row) = ⊥
Agrees (some d) none = Unit
Agrees (some d) (some row) = row.first_seen ≡ d.first_seen

Agrees-Kept : (a b row : Option Device) → Kept a b → Agrees a row → Agrees b row
Agrees-Kept none none row k h = h
Agrees-Kept none (some e) none k h = tt
Agrees-Kept none (some e) (some r) k h = absurd h
Agrees-Kept (some d) none row k h = absurd k
Agrees-Kept (some d) (some e) none k h = tt
Agrees-Kept (some d) (some e) (some r) k h = h ∙ sym k

Agrees-first_seen_of :
    (d : Device) (row : Option Device) → Agrees (some d) row → first_seen_of row d ≡ d
Agrees-first_seen_of d none h = refl
Agrees-first_seen_of d (some r) h = ap (λ t. record d { first_seen = t }) h

pub stored_over-Agrees :
    (o row : Option Device) → Agrees o row → (stored_over o row ≡ o) × Agrees o (stored_over o row)
stored_over-Agrees none none h = (refl, tt)
stored_over-Agrees none (some r) h = absurd h
stored_over-Agrees (some d) row h =
    let same = Agrees-first_seen_of d row h in (ap some same, ap (λ e. e.first_seen) same)

zero_mac-IsMac : IsMac zero_mac
zero_mac-IsMac = let l : 0 < 256 = omega arith in (refl, (l, (l, (l, (l, (l, (l, tt)))))))

module _ (json : Json) where
  -- The registry is valid and keyed by MAC addresses, the table of devices has one row to a MAC
  -- address, and each row is of a device in the registry, first seen when that device was.
  pub record IsSynced (reg : DeviceRegistry) (db : Tables) : Type 0 where
    pub valid : IsValid reg
    pub keys : HasMacKeys reg
    pub rows : IsKeyed (load_devices json db)
    pub agrees :
        (m : MacAddr)
        → IsMac m
        → Agrees (get_device reg m) (find_device (fmt_mac m) (load_devices json db))

  -- A change of the registry that loses nothing.
  pub Grows-IsSynced :
      {a b : DeviceRegistry} {db : Tables} → Grows a b → IsValid b → IsSynced a db → IsSynced b db
  Grows-IsSynced {a} {b} {db} g v s = record {
    valid = v;
    keys = g.keys s.keys;
    rows = s.rows;
    agrees = λ m h.
        Agrees-Kept (get_device a m) (get_device b m)
          (find_device (fmt_mac m) (load_devices json db)) (g.kept m) (s.agrees m h);
  }

  -- A change of the table of alerts.
  pub devices-IsSynced :
      {reg : DeviceRegistry} {a b : Tables}
      → a.devices ≡ b.devices
      → IsSynced reg a
      → IsSynced reg b
  unfolding load_devices
  devices-IsSynced {reg} {a} {b} eq s = record {
    valid = s.valid;
    keys = s.keys;
    rows = subst (λ rows. IsKeyed (map (device_of json) rows)) eq s.rows;
    agrees = λ m h.
        subst
          (λ rows. Agrees (get_device reg m) (find_device (fmt_mac m) (map (device_of json) rows)))
          eq (s.agrees m h);
  }

  storable :
      (devices : Dict MacAddr Device)
      → Entries IsValidDevice devices
      → All IsMac (keys_of devices)
      → Entries IsStorable devices
  storable [] v k = tt
  storable ((m, d) ∷ devices) v k = (
    (k.0, v.0.named, omega (arith, v.0.packets_fit), omega (arith, v.0.bytes_fit)),
    storable devices v.1 k.1,
  )

  -- A device of the registry is stored.
  pub upsert_device-IsSynced :
      (reg : DeviceRegistry) (db : Tables) (n : MacAddr) (d : Device)
      → IsJson json
      → IsMac n
      → get_device reg n ≡ some d
      → IsSynced reg db
      → IsSynced reg (upsert_device json db d)
  unfolding get_device
  upsert_device-IsSynced reg db n d j hn known s =
      let v = Entries-get IsValidDevice n reg.devices s.valid known in
      let here : Agrees (some d) (find_device d.mac (load_devices json db)) = rw (v.named) (
        subst (λ o. Agrees o (find_device (fmt_mac n) (load_devices json db))) known
          (s.agrees n hn)) in
      record {
        valid = s.valid;
        keys = s.keys;
        rows = upsert_device-IsKeyed json db d (n, hn, v.named) s.rows;
        agrees = λ m h.
            rw
              (upsert_device-load json db d (fmt_mac m) j (omega (arith, v.packets_fit))
                (omega (arith, v.bytes_fit)))
              (elim (Bool-cases (n == m)) [
                | inl same ↦
                    let eq = (==_iff n m).0 same in
                    let this = v.named ∙ ap fmt_mac eq in
                    rw ((==_iff d.mac (fmt_mac m)).1 this, sym eq, known)
                      (ap (λ e. e.first_seen) (Agrees-first_seen_of d _ here))
                | inr other ↦ rw (not_same d.mac n m v.named hn h other) (s.agrees m h)
              ]);
      }

  -- The whole registry is stored.
  pub flush_all-IsSynced :
      (fl : Floats) (inf : Inference fl) (reg : DeviceRegistry) (db : Tables)
      → IsJson json
      → IsSynced reg db
      → IsSynced reg (flush_all fl inf (sqlite_store json) reg db)
  unfolding flush_all get_device
  flush_all-IsSynced fl inf reg db j s =
      let found = λ (m : MacAddr) (h : IsMac m).
        upsert_all-find json fl inf db reg.devices m h j (storable reg.devices s.valid s.keys.0)
          s.keys.1 s.rows in
      record {
        valid = s.valid;
        keys = s.keys;
        rows = (found zero_mac zero_mac-IsMac).0;
        agrees = λ m h.
            rw ((found m h).1)
              (stored_over-Agrees (get m reg.devices)
                (find_device (fmt_mac m) (load_devices json db)) (s.agrees m h)).1;
      }

  -- What the store finds after a flush is what the registry has.
  pub flush_all-find :
      (fl : Floats) (inf : Inference fl) (reg : DeviceRegistry) (db : Tables) (m : MacAddr)
      → IsMac m
      → IsJson json
      → IsSynced reg db
      → find_device (fmt_mac m) (load_devices json (flush_all fl inf (sqlite_store json) reg db))
        ≡ get_device reg m
  unfolding flush_all get_device
  flush_all-find fl inf reg db m h j s =
      (upsert_all-find json fl inf db reg.devices m h j (storable reg.devices s.valid s.keys.0)
        s.keys.1 s.rows).1
      ∙ (stored_over-Agrees (get m reg.devices) (find_device (fmt_mac m) (load_devices json db))
          (s.agrees m h)).0
