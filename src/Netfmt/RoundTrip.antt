-- ===== src/Netfmt/RoundTrip.antt =====
-- Printed addresses are read back, and name one address each.
use lanscope.Base.Decimal.{to_string-injective, to_string-digits, to_string, IsDigit}
use mathlib.Core.Path.{subst}
use lanscope.Common.{IsMac, MacAddr}
use lanscope.Base.{
  ◌>>=◌, ◌^◌, get_or, zero, none, ◌*◌, ◌==◌, inr, inl, Option, List, Bool-cases, ap, Option-cases,
  ◌+◌, ◌∙◌, sym, refl, map, suc, length, ℕ, ◌<◌, some, [], ◌∷◌, ◌++◌, nat_Eq, ◌≡◌, All, arith, ◌≢◌,
}
use mathlib.Core.List.{append-nil, append_assoc}
use lanscope.Base.Text.{Bytes, split}
use lanscope.Netfmt.{
  octet, fmt_ipv4, no_more, hex_value, hex_digits, parse_slots, fmt_mac_from, fmt_mac, parse_mac,
  hex_byte, from_str_radix_16,
}

abbrev Without : ℕ → Bytes → Type 0
Without sep = All (λ c. c ≢ sep)

split-append :
    (sep : ℕ) (piece p rest : Bytes)
    → Without sep p
    → split sep piece (p ++ sep ∷ rest) ≡ (piece ++ p) ∷ split sep [] rest
unfolding split
split-append sep piece [] rest h = ground (arith, append-nil piece)
split-append sep piece (c ∷ p) rest h =
    ground (arith, split-append sep (piece ++ c ∷ []) p rest h.1, append_assoc piece (c ∷ []) p)

split_last : (sep : ℕ) (piece p : Bytes) → Without sep p → split sep piece p ≡ (piece ++ p) ∷ []
unfolding split
split_last sep piece [] h = ground (arith, append-nil piece)
split_last sep piece (c ∷ p) h =
    ground (arith, split_last sep (piece ++ c ∷ []) p h.1, append_assoc piece (c ∷ []) p)

hex_byte-Without : (b : ℕ) → b < 256 → Without b':' (hex_byte b)
unfolding hex_byte
hex_byte-Without b h = ground arith

hex_byte-from_str_radix_16 : (b : ℕ) → b < 256 → from_str_radix_16 (hex_byte b) ≡ some b
unfolding hex_byte from_str_radix_16
hex_byte-from_str_radix_16 b h = ground arith

abbrev Bytes256 : Bytes → Type 0
Bytes256 = All (λ b. b < 256)

fmt_mac_from-cons :
    (i b : ℕ) (mac : MacAddr)
    → 0 < i
    → fmt_mac_from i (b ∷ mac) ≡ b':' ∷ (hex_byte b ++ fmt_mac_from (i + 1) mac)
unfolding fmt_mac_from
fmt_mac_from-cons i b mac h = ground arith

-- From the second byte on, the pieces at the colons are the printed bytes.
split-fmt_mac_from :
    (i : ℕ) (p : Bytes) (mac : MacAddr)
    → 0 < i
    → Without b':' p
    → Bytes256 mac
    → split b':' [] (p ++ fmt_mac_from i mac) ≡ p ∷ map hex_byte mac
split-fmt_mac_from i p [] hi hp h = unfold fmt_mac_from in rw append-nil (split_last b':' [] p hp)
split-fmt_mac_from i p (b ∷ mac) hi hp h = rw (fmt_mac_from-cons i b mac hi) (
    split-append b':' [] p (hex_byte b ++ fmt_mac_from (i + 1) mac) hp
    ∙ ap (◌∷◌ p)
        (split-fmt_mac_from (i + 1) (hex_byte b) mac (omega arith) (hex_byte-Without b h.0) h.1))

parse_slots-hex :
    (mac : MacAddr) → Bytes256 mac → parse_slots (length mac) (map hex_byte mac) ≡ some (mac, [])
unfolding parse_slots
parse_slots-hex [] h = refl
parse_slots-hex (b ∷ mac) h = rw (hex_byte-from_str_radix_16 b h.0) (rw (parse_slots-hex mac h.1))

split-fmt_mac : (mac : MacAddr) → IsMac mac → split b':' [] (fmt_mac mac) ≡ map hex_byte mac
unfolding fmt_mac
split-fmt_mac [] h = absurd (omega (arith, h.0))
split-fmt_mac (b ∷ mac) h =
    split-fmt_mac_from 1 (hex_byte b) mac (omega arith) (hex_byte-Without b h.1.0) h.1.1

-- A MAC address of six bytes that is printed is parsed back as it was.
pub parse_mac-fmt_mac : (mac : MacAddr) → IsMac mac → parse_mac (fmt_mac mac) ≡ some mac
unfolding parse_mac
parse_mac-fmt_mac mac h =
    rw (split-fmt_mac mac h) (rw (sym h.0 ∙ refl) (rw (parse_slots-hex mac h.1)))

-- Reading texts as MAC addresses yields six bytes.
hex_digits-lt : (n : ℕ) (s : Bytes) {b : ℕ} → n < 256 → hex_digits n s ≡ some b → b < 256
unfolding hex_digits
hex_digits-lt n [] h e = ground arith
hex_digits-lt n (c ∷ s) {b} h e = elim (Option-cases (hex_value c)) [
  | inl no_digit ↦ ground arith
  | inr (d, digit) ↦ ground (arith, hex_digits-lt (n * 16 + d) s {b = b})
]

from_str_radix_16-lt : (s : Bytes) {b : ℕ} → from_str_radix_16 s ≡ some b → b < 256
unfolding from_str_radix_16
from_str_radix_16-lt [] e = cc
from_str_radix_16-lt (c ∷ []) e = hex_digits-lt 0 (c ∷ []) (omega arith) e
from_str_radix_16-lt (c ∷ d ∷ s) {b} e = elim (Bool-cases (c == b'+')) [
  | inl plus ↦ hex_digits-lt 0 (d ∷ s) (omega arith) (rw plus at e)
  | inr digit ↦ hex_digits-lt 0 (c ∷ d ∷ s) (omega arith) (rw digit at e)
]

-- What a chain of fallible steps returns.
>>=-eq-some {ℓ κ} :
    {A : Type ℓ} {B : Type κ} (m : Option A) (f : A → Option B) {b : B}
    → m >>= f ≡ some b
    → (a : A) × (m ≡ some a) × (f a ≡ some b)
>>=-eq-some none f h = cc
>>=-eq-some (some a) f h = (a, refl, h)

abbrev filled_mac : Option (MacAddr × List Bytes) → MacAddr
filled_mac none = []
filled_mac (some (mac, rest)) = mac

abbrev Filled : ℕ → MacAddr → Type 0
Filled k mac = (length mac ≡ k) × Bytes256 mac

parse_slots-bytes :
    (k : ℕ) (parts : List Bytes) {mac : MacAddr} {rest : List Bytes}
    → parse_slots k parts ≡ some (mac, rest)
    → Filled k mac
unfolding parse_slots
parse_slots-bytes zero parts e = subst (Filled zero) (ap filled_mac e) (refl, tt)
parse_slots-bytes (suc k) [] e = cc
parse_slots-bytes (suc k) (p ∷ parts) e =
    let (b, pb, e₁) = >>=-eq-some (from_str_radix_16 p) _ e in
    let ((m, r), pm, e₂) = >>=-eq-some (parse_slots k parts) _ e₁ in
    let (len, bytes) = parse_slots-bytes k parts pm in
    subst (Filled (suc k)) (ap filled_mac e₂) (ap suc len, (from_str_radix_16-lt p pb, bytes))

no_more-eq : (m mac : MacAddr) (parts : List Bytes) → no_more (m, parts) ≡ some mac → m ≡ mac
unfolding no_more
no_more-eq m mac [] e = cc
no_more-eq m mac (p ∷ parts) e = cc

-- Whatever text `parse_mac` accepts, it returns six numbers below 256.
pub parse_mac-IsMac : (s : Bytes) {mac : MacAddr} → parse_mac s ≡ some mac → IsMac mac
unfolding parse_mac
parse_mac-IsMac s {mac} e =
    let ((m, r), p, q) = >>=-eq-some (parse_slots 6 (split b':' [] s)) no_more e in
    subst IsMac (no_more-eq m mac r q) (parse_slots-bytes 6 (split b':' [] s) p)

digits-Without : (s : Bytes) → All IsDigit s → Without b'.' s
digits-Without [] h = tt
digits-Without (c ∷ s) h = (omega arith, digits-Without s h.1)

dotless : (n : ℕ) → Without b'.' (to_string n)
dotless n = digits-Without (to_string n) (to_string-digits n)

-- The pieces of a dotted quad are the numerals of the four octets.
split-fmt_ipv4 :
    (ip : ℕ)
    → split b'.' [] (fmt_ipv4 ip)
      ≡ to_string (octet ip 0)
        ∷ to_string (octet ip 1)
        ∷ to_string (octet ip 2)
        ∷ to_string (octet ip 3)
        ∷ []
unfolding fmt_ipv4
split-fmt_ipv4 ip = rw (split-append b'.' [] _ _ (dotless (octet ip 0))) (
    rw (split-append b'.' [] _ _ (dotless (octet ip 1))) (
      rw (split-append b'.' [] _ _ (dotless (octet ip 2)))
        (rw (split_last b'.' [] _ (dotless (octet ip 3))))))

fmt_ipv4-octets :
    (a b : ℕ)
    → fmt_ipv4 a ≡ fmt_ipv4 b
    → (octet a 0 ≡ octet b 0)
      × (octet a 1 ≡ octet b 1)
      × (octet a 2 ≡ octet b 2)
      × (octet a 3 ≡ octet b 3)
fmt_ipv4-octets a b e =
    let q = sym (split-fmt_ipv4 a) ∙ ap (split b'.' []) e ∙ split-fmt_ipv4 b in
    (
      to_string-injective _ _ (ap (λ p. get_or p 0 []) q),
      to_string-injective _ _ (ap (λ p. get_or p 1 []) q),
      to_string-injective _ _ (ap (λ p. get_or p 2 []) q),
      to_string-injective _ _ (ap (λ p. get_or p 3 []) q),
    )

-- Two 32-bit IPv4 addresses with the same text are the same address.
pub fmt_ipv4-injective : (a b : ℕ) → a < 2 ^ 32 → b < 2 ^ 32 → fmt_ipv4 a ≡ fmt_ipv4 b → a ≡ b
fmt_ipv4-injective a b ha hb e = omega (arith, fmt_ipv4-octets a b e)
