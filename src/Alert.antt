-- ===== src/Alert.antt =====
-- lanscope/src/alert.rs: anomaly alerts.
use lanscope.Base.{
  refl, ==_iff, inr, inl, Bool-cases, ◌⊎◌, nat_Eq, list_Eq, ◌==◌, none, some, if◌then◌else◌, ◌≡◌, ℕ,
  Option,
}
use lanscope.Base.Text.{Bytes, codes}

pub data Severity : Type 0 where
  info warning critical : Severity

unfoldable pub as_str : Severity → Bytes
as_str info = codes "info"
as_str warning = codes "warning"
as_str critical = codes "critical"

-- `FromStr`; the text of the error is left out.
unfoldable pub from_str : Bytes → Option Severity
from_str s =
    if s == codes "info"
    then some info
    else if s == codes "warning"
    then some warning
    else if s == codes "critical"
    then some critical
    else none

pub record Alert : Type 0 where
  pub ts : ℕ
  pub mac : Option Bytes
  pub severity : Severity
  pub kind : Bytes
  pub message : Bytes

abbrev pub new_alert : ℕ → Option Bytes → Severity → Bytes → Bytes → Alert
new_alert ts mac severity kind message = record {
  ts = ts;
  mac = mac;
  severity = severity;
  kind = kind;
  message = message;
}

-- A severity is read back from its text, and no other text is read as a severity.
pub Severity-names :
    (s : Severity) (text : Bytes)
    → (from_str (as_str s) ≡ some s)
      × ((from_str text ≡ none) ⊎ ((t : Severity) × (from_str text ≡ some t) × (text ≡ as_str t)))
unfolding from_str as_str
Severity-names s text = (read_back s, by_text)
  where
    read_back : (s : Severity) → from_str (as_str s) ≡ some s
    read_back info = refl
    read_back warning = refl
    read_back critical = refl

    by_text :
        (from_str text ≡ none) ⊎ ((t : Severity) × (from_str text ≡ some t) × (text ≡ as_str t))
    by_text = elim (Bool-cases (text == codes "info")) [
      | inl i ↦ inr (info, rw i refl, (==_iff text (codes "info")).0 i)
      | inr ni ↦ elim (Bool-cases (text == codes "warning")) [
        | inl w ↦ inr (warning, rw ni (rw w refl), (==_iff text (codes "warning")).0 w)
        | inr nw ↦ elim (Bool-cases (text == codes "critical")) [
          | inl c ↦ inr (critical, rw ni (rw nw (rw c refl)), (==_iff text (codes "critical")).0 c)
          | inr nc ↦ inl (rw ni (rw nw (rw nc refl)))
        ]
      ]
    ]
