-- ===== src/Fingerprint/Oui.antt =====
-- lanscope/src/fingerprint/oui.rs: the vendor of a MAC address.
use lanscope.Base.Bits.{bit_and_0x02}
use Prim.Native.Nat.{bit_and}
use lanscope.Base.{
  refl, ◌∙◌, inr, false, ==_iff, sym, ap, inl, ◌<◌, ◌/◌, Bool-cases, ◌≢◌, All, arith, ◌≡◌, some,
  not, [], ◌∷◌, ◌%◌, none, Option, List, nat_Eq, list_Eq, ◌==◌, if◌then◌else◌, get_or,
}
use lanscope.Base.Text.{Bytes, codes}
use lanscope.Common.{get_or_lt, IsMac, MacAddr, zero_mac}

-- OUI prefixes with their vendors.
abbrev pub table : List (Bytes × Bytes)
table =
    (0xb8 ∷ 0x27 ∷ 0xeb ∷ [], codes "Raspberry Pi Foundation")
    ∷ (0xdc ∷ 0xa6 ∷ 0x32 ∷ [], codes "Raspberry Pi Trading")
    ∷ (0xe4 ∷ 0x5f ∷ 0x01 ∷ [], codes "Raspberry Pi Trading")
    ∷ (0x44 ∷ 0x65 ∷ 0x0d ∷ [], codes "Amazon Technologies")
    ∷ (0xfc ∷ 0x65 ∷ 0xde ∷ [], codes "Amazon Technologies")
    ∷ (0x68 ∷ 0x37 ∷ 0xe9 ∷ [], codes "Amazon Technologies")
    ∷ (0x18 ∷ 0xb4 ∷ 0x30 ∷ [], codes "Nest Labs")
    ∷ (0x64 ∷ 0x16 ∷ 0x66 ∷ [], codes "Nest Labs")
    ∷ (0x00 ∷ 0x17 ∷ 0x88 ∷ [], codes "Philips Hue (Signify)")
    ∷ (0xec ∷ 0xb5 ∷ 0xfa ∷ [], codes "Philips Lighting")
    ∷ (0xd0 ∷ 0x73 ∷ 0xd5 ∷ [], codes "LIFX")
    ∷ (0x50 ∷ 0xc7 ∷ 0xbf ∷ [], codes "TP-Link")
    ∷ (0x54 ∷ 0x60 ∷ 0x09 ∷ [], codes "Google")
    ∷ (0xf4 ∷ 0xf5 ∷ 0xd8 ∷ [], codes "Google")
    ∷ (0x3c ∷ 0x5a ∷ 0xb4 ∷ [], codes "Google")
    ∷ (0x24 ∷ 0x0a ∷ 0xc4 ∷ [], codes "Espressif (ESP32/ESP8266)")
    ∷ (0x7c ∷ 0x9e ∷ 0xbd ∷ [], codes "Espressif (ESP32/ESP8266)")
    ∷ (0x5c ∷ 0xcf ∷ 0x7f ∷ [], codes "Espressif (ESP32/ESP8266)")
    ∷ (0xa4 ∷ 0xcf ∷ 0x12 ∷ [], codes "Espressif (ESP32/ESP8266)")
    ∷ (0x00 ∷ 0x1b ∷ 0x63 ∷ [], codes "Apple")
    ∷ (0xac ∷ 0xbc ∷ 0x32 ∷ [], codes "Apple")
    ∷ (0xf0 ∷ 0x18 ∷ 0x98 ∷ [], codes "Apple")
    ∷ (0x00 ∷ 0x0c ∷ 0x29 ∷ [], codes "VMware")
    ∷ []

-- `TABLE.iter().find(|(p, _)| *p == prefix).map(|(_, vendor)| *vendor)`
unfoldable pub find_vendor : Bytes → List (Bytes × Bytes) → Option Bytes
find_vendor prefix [] = none
find_vendor prefix ((p, vendor) ∷ rows) =
    if p == prefix then some vendor else find_vendor prefix rows

abbrev pub locally_administered : Bytes
locally_administered = codes "(locally administered)"

unfoldable pub lookup : MacAddr → Option Bytes
unfolding find_vendor
lookup mac =
    if mac == zero_mac
    then none
    else if not (bit_and (get_or mac 0 0) 0x02 == 0)
    then some locally_administered
    else find_vendor (get_or mac 0 0 ∷ get_or mac 1 0 ∷ get_or mac 2 0 ∷ []) table

-- Every prefix of the table is of a unicast, globally administered address.
abbrev IsGlobal : Bytes × Bytes → Type 0
IsGlobal row = get_or row.0 0 0 % 4 ≡ 0

table-IsGlobal : All IsGlobal table
table-IsGlobal = omega arith

find_vendor-none :
    (prefix : Bytes) (rows : List (Bytes × Bytes))
    → get_or prefix 0 0 % 4 ≢ 0
    → All IsGlobal rows
    → find_vendor prefix rows ≡ none
unfolding find_vendor
find_vendor-none prefix [] h g = refl
find_vendor-none prefix ((p, vendor) ∷ rows) h g = elim (Bool-cases (p == prefix)) [
  | inl same ↦ absurd (h (ap (λ q. get_or q 0 0 % 4) (sym ((==_iff p prefix).0 same)) ∙ g.0))
  | inr other ↦ rw other (find_vendor-none prefix rows h g.1)
]

module _ (mac : MacAddr) (valid : IsMac mac) where
  octet_one-lt : get_or mac 0 0 < 256
  octet_one-lt = get_or_lt mac 0 valid.1

  not_zero_mac : get_or mac 0 0 ≢ 0 → (mac == zero_mac) ≡ false
  not_zero_mac h = elim (Bool-cases (mac == zero_mac)) [
    | inl same ↦ absurd (h (ap (λ m. get_or m 0 0) ((==_iff mac zero_mac).0 same)))
    | inr other ↦ other
  ]

  -- A locally administered address of six bytes has no vendor of its own: the label is reported.
  pub lookup_local : get_or mac 0 0 / 2 % 2 ≡ 1 → lookup mac ≡ some locally_administered
  unfolding lookup
  lookup_local h = rw (not_zero_mac (omega arith), bit_and_0x02 (get_or mac 0 0) octet_one-lt, h)

  -- A multicast address of six bytes that is not locally administered has no vendor and no label.
  pub lookup_multicast : get_or mac 0 0 % 4 ≡ 1 → lookup mac ≡ none
  unfolding lookup
  lookup_multicast h =
      let bit : get_or mac 0 0 / 2 % 2 ≡ 0 = omega arith in
      rw (not_zero_mac (omega arith), bit_and_0x02 (get_or mac 0 0) octet_one-lt, bit)
        (find_vendor-none (get_or mac 0 0 ∷ get_or mac 1 0 ∷ get_or mac 2 0 ∷ []) table
          (omega arith) table-IsGlobal)
