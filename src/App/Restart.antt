-- ===== src/App/Restart.antt =====
-- What a restart finds of the registry that was flushed.
use mathlib.Core.Path.{subst}
use lanscope.Base.Dict.{get-insert}
use lanscope.Netfmt.RoundTrip.{parse_mac-fmt_mac}
use lanscope.Base.Distinct.{Distinct}
use lanscope.Storage.{Store}
use lanscope.Netfmt.{parse_mac, fmt_mac}
use lanscope.Registry.{get_device, load, DeviceRegistry, Device}
use lanscope.Anomaly.Onnx.{Inference}
use lanscope.Common.{IsMac, MacAddr}
use lanscope.Base.Text.{Bytes}
use lanscope.Base.Float.{Floats}
use lanscope.Base.{
  inr, ==_iff, inl, if◌then◌else◌, Bool-cases, ◌==◌, refl, ap, [], ◌∙◌, arith, ◌∷◌, nat_Eq, list_Eq,
  sym, false, ◌≡◌, none, map, some, contains, All, Option, List,
}
use lanscope.App.{load_all}
use lanscope.Storage.Sqlite.Upsert.{find_device}

abbrev pub IsMacText : Bytes → Type 0
IsMacText text = (m : MacAddr) × IsMac m × (text ≡ fmt_mac m)

-- Every text of the list is the text of a MAC address, and none stands twice.
abbrev pub IsKeyed : List Device → Type 0
IsKeyed devices = All IsMacText (map (λ d. d.mac) devices) × Distinct (map (λ d. d.mac) devices)

-- What is found first, or else the other.
abbrev pub found_or : Option Device → Option Device → Option Device
found_or none other = other
found_or (some d) other = some d

pub fmt_mac-injective : (a b : MacAddr) → IsMac a → IsMac b → fmt_mac a ≡ fmt_mac b → a ≡ b
fmt_mac-injective a b ha hb e =
    let eq = sym (parse_mac-fmt_mac a ha) ∙ ap parse_mac e ∙ parse_mac-fmt_mac b hb in
    some-injective eq
  where
    some-injective : {x y : MacAddr} → some x ≡ some y → x ≡ y
    some-injective h = cc

pub find_device-none :
    (mac : Bytes) (devices : List Device)
    → contains (map (λ d. d.mac) devices) mac ≡ false
    → find_device mac devices ≡ none
find_device-none mac [] h = refl
find_device-none mac (d ∷ devices) h = ground (arith, find_device-none mac devices, h)

pub not_same :
    (mac : Bytes) (m0 m : MacAddr)
    → mac ≡ fmt_mac m0
    → IsMac m0
    → IsMac m
    → m0 == m ≡ false
    → mac == fmt_mac m ≡ false
not_same mac m0 m named h0 h other = elim (Bool-cases (mac == fmt_mac m)) [
  | inl same ↦
      let equal = fmt_mac-injective m0 m h0 h (sym named ∙ (==_iff mac (fmt_mac m)).0 same) in
      absurd (ground (arith, other, (==_iff m0 m).1 equal))
  | inr differs ↦ differs
]

module _ (fl : Floats) (inf : Inference fl) (st : Store) where
  load-get :
      (reg : DeviceRegistry) (m0 : MacAddr) (d : Device) (m : MacAddr)
      → get_device (load reg m0 d) m ≡ (if m0 == m then some d else get_device reg m)
  unfolding load get_device
  load-get reg m0 d m = get-insert m0 m d reg.devices

  -- The devices are loaded under the MAC that their text names.
  pub load_all-get :
      (reg : DeviceRegistry) (devices : List Device) (m : MacAddr)
      → IsMac m
      → IsKeyed devices
      → get_device (load_all fl inf st reg devices) m
        ≡ found_or (find_device (fmt_mac m) devices) (get_device reg m)
  unfolding load_all
  load_all-get reg [] m h k = refl
  load_all-get reg (d ∷ devices) m h (((m0, h0, named), ks), (fresh, ds)) =
      let parsed = ap parse_mac named ∙ parse_mac-fmt_mac m0 h0 in
      rw (parsed, load_all, load_all-get (load reg m0 d) devices m h (ks, ds), load-get reg m0 d m)
        (elim (Bool-cases (m0 == m)) [
          | inl same ↦
              let this = named ∙ ap fmt_mac ((==_iff m0 m).0 same) in
              let absent =
                find_device-none (fmt_mac m) devices
                  (subst (λ t. contains (map (λ e. e.mac) devices) t ≡ false) this fresh) in
              rw (same, absent, (==_iff d.mac (fmt_mac m)).1 this) refl
          | inr other ↦
              let differs : d.mac == fmt_mac m ≡ false = not_same d.mac m0 m named h0 h other in
              rw (other, differs) refl
        ])
