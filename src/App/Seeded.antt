-- ===== src/App/Seeded.antt =====
-- A database that a run can start from, and what `seed_registry` makes of it.
use mathlib.Core.Path.{subst}
use lanscope.Base.{
  inr, false, contains, inl, ◌==◌, Bool-cases, ==_iff, ◌≡◌, sym, ◌∙◌, refl, nat_Eq, list_Eq, none,
  map, ap, [], ◌∷◌, some, All, Option, List,
}
use lanscope.Base.Dict.{Entries-get, get}
use lanscope.Base.Distinct.{Distinct}
use lanscope.Base.Float.{Floats}
use lanscope.Anomaly.Onnx.{Inference}
use lanscope.Common.{IsMac, MacAddr}
use lanscope.Netfmt.{fmt_mac, parse_mac}
use lanscope.Netfmt.RoundTrip.{parse_mac-fmt_mac}
use lanscope.Registry.{Device, DeviceRegistry, new_registry, load, get_device}
use lanscope.Registry.Invariant.{IsValid, IsValidDevice, load-IsValid}
use lanscope.Registry.Keys.{HasMacKeys, insert-HasMacKeys}
use lanscope.Storage.Sqlite.{Json, Tables, sqlite_store, load_devices}
use lanscope.Storage.Sqlite.Upsert.{IsJson, find_device}
use lanscope.App.Restart.{IsMacText, find_device-none, IsKeyed, load_all-get}
use lanscope.App.Flush.{found_or-none}
use lanscope.App.Synced.{IsSynced, Agrees, flush_all-IsSynced, flush_all-find}
use lanscope.App.{load_all, flush_all}

-- A device that is valid for some MAC address.
abbrev pub IsStoredDevice : Device → Type 0
IsStoredDevice d = (m : MacAddr) × IsMac m × IsValidDevice m d

-- Valid devices, and none twice.
abbrev pub AreStored : List Device → Type 0
AreStored devices = All IsStoredDevice devices × Distinct (map (λ d. d.mac) devices)

AreStored-IsKeyed : (devices : List Device) → AreStored devices → IsKeyed devices
AreStored-IsKeyed [] s = (tt, tt)
AreStored-IsKeyed (d ∷ devices) (((m, h, v), ss), (fresh, ds)) =
    let (texts, distinct) = AreStored-IsKeyed devices (ss, ds) in
    (((m, h, v.named), texts), (fresh, distinct))

Agrees-refl : (o : Option Device) → Agrees o o
Agrees-refl none = tt
Agrees-refl (some d) = refl

-- Where what is found under a MAC address is valid for it, so is every device.
found_valid :
    (devices : List Device)
    → All IsMacText (map (λ d. d.mac) devices)
    → Distinct (map (λ d. d.mac) devices)
    → ((m : MacAddr) (d : Device)
        → IsMac m
        → find_device (fmt_mac m) devices ≡ some d
        → IsValidDevice m d)
    → All IsStoredDevice devices
found_valid [] t u valid = tt
found_valid (d ∷ devices) ((n, hn, named), ts) (fresh, us) valid = (
  (n, hn, valid n d hn (rw ((==_iff d.mac (fmt_mac n)).1 named) refl)),
  found_valid devices ts us (λ m e h found. valid m e h (elim (Bool-cases (d.mac == fmt_mac m)) [
    | inl same ↦
        let absent = find_device-none (fmt_mac m) devices (
          subst (λ t. contains (map (λ x. x.mac) devices) t ≡ false)
            ((==_iff d.mac (fmt_mac m)).0 same) fresh) in
        absurd (none-some e (sym absent ∙ found))
    | inr other ↦ rw other found
  ])),
)
  where
    none-some : (e : Device) → none ≡ some e → ⊥
    none-some e eq = cc

module _ (fl : Floats) (inf : Inference fl) (json : Json) where
  load_all-IsValid :
      (reg : DeviceRegistry) (devices : List Device)
      → All IsStoredDevice devices
      → IsValid reg
      → HasMacKeys reg
      → let seeded = load_all fl inf (sqlite_store json) reg devices in
        IsValid seeded × HasMacKeys seeded
  unfolding load_all
  load_all-IsValid reg [] s v k = (v, k)
  load_all-IsValid reg (d ∷ devices) ((m, h, w), ss) v k =
      let parsed = ap parse_mac w.named ∙ parse_mac-fmt_mac m h in
      rw (parsed, load_all)
        (load_all-IsValid (load reg m d) devices ss (load-IsValid reg m d w v)
          (unfold load in insert-HasMacKeys reg m d h k))

  -- What a registry has that is seeded from good tables.
  pub load_all-find :
      (db : Tables) (m : MacAddr)
      → AreStored (load_devices json db)
      → IsMac m
      → get_device (load_all fl inf (sqlite_store json) new_registry (load_devices json db)) m
        ≡ find_device (fmt_mac m) (load_devices json db)
  unfolding get_device get
  load_all-find db m s h =
      load_all-get fl inf (sqlite_store json) new_registry (load_devices json db) m h
        (AreStored-IsKeyed (load_devices json db) s)
      ∙ found_or-none (find_device (fmt_mac m) (load_devices json db))

  -- A registry that is seeded from good tables is in step with them.
  pub load_all-IsSynced :
      (db : Tables)
      → AreStored (load_devices json db)
      → IsSynced json (load_all fl inf (sqlite_store json) new_registry (load_devices json db)) db
  load_all-IsSynced db s =
      let (valid, keys) = load_all-IsValid new_registry (load_devices json db) s.0 tt (tt, tt) in
      record {
        valid = valid;
        keys = keys;
        rows = AreStored-IsKeyed (load_devices json db) s;
        agrees = λ m h.
            rw (load_all-find db m s h)
              (Agrees-refl (find_device (fmt_mac m) (load_devices json db)));
      }

  -- After a flush the tables are good again.
  pub flush_all-AreStored :
      (reg : DeviceRegistry) (db : Tables)
      → IsJson json
      → IsSynced json reg db
      → AreStored (load_devices json (flush_all fl inf (sqlite_store json) reg db))
  unfolding get_device
  flush_all-AreStored reg db j s =
      let (texts, distinct) = (flush_all-IsSynced json fl inf reg db j s).rows in
      (
        found_valid (load_devices json (flush_all fl inf (sqlite_store json) reg db)) texts distinct
            (λ m d h found.
              Entries-get IsValidDevice m reg.devices s.valid
                (sym (flush_all-find json fl inf reg db m h j s) ∙ found)),
        distinct,
      )
