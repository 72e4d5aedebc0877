-- ===== src/Registry/Ips.antt =====
-- The addresses of a device: each once, the most recent last.
use lanscope.Netfmt.{fmt_ipv4}
use lanscope.Base.Distinct.{contains-append, Distinct-concat, Distinct}
use lanscope.Base.Text.{Bytes}
use lanscope.Base.{
  if◌then◌else◌, none, ◌++◌, some, Option, ==_iff, refl, arith, inr, [], not, inl, ◌||◌, ◌==◌, ◌&&◌,
  ◌≡◌, Bool-cases, ◌∷◌, nat_Eq, list_Eq, contains, List, ℕ,
}
use lanscope.Registry.{Device, remove_first, push_ip}

contains-remove_first :
    (s a : Bytes) (xs : List Bytes)
    → Distinct xs
    → contains (remove_first s xs) a ≡ (contains xs a && not (s == a))
unfolding remove_first
contains-remove_first s a [] d = refl
contains-remove_first s a (x ∷ xs) d =
    ground (arith, contains-remove_first s a xs d.1, ==_iff x s, ==_iff x a, ==_iff s a)

Distinct-remove_first : (s : Bytes) (xs : List Bytes) → Distinct xs → Distinct (remove_first s xs)
unfolding remove_first
Distinct-remove_first s [] d = tt
Distinct-remove_first s (x ∷ xs) d = elim (Bool-cases (x == s)) [
  | inl here ↦ rw here d.1
  | inr there ↦
      rw there (ground (arith, contains-remove_first s x xs d.1), Distinct-remove_first s xs d.1)
]

module _ (dev : Device) (ip : ℕ) (d : Distinct dev.ips) where
  -- No address is listed twice.
  pub push_ip-Distinct : Distinct (push_ip dev ip).ips
  unfolding push_ip
  push_ip-Distinct = elim (Bool-cases (contains dev.ips (fmt_ipv4 ip))) [
    | inl old ↦
        rw (old, push_ip)
          (Distinct-concat _ _
            (ground (
              arith,
              contains-remove_first (fmt_ipv4 ip) (fmt_ipv4 ip) dev.ips d,
              ==_iff (fmt_ipv4 ip) (fmt_ipv4 ip),
            ))
            (Distinct-remove_first (fmt_ipv4 ip) dev.ips d))
    | inr new ↦ rw (new, push_ip) (Distinct-concat dev.ips (fmt_ipv4 ip) new d)
  ]

  -- The addresses listed are those of before and the one observed.
  pub contains-push_ip :
      (a : Bytes) → contains (push_ip dev ip).ips a ≡ (contains dev.ips a || fmt_ipv4 ip == a)
  unfolding push_ip
  contains-push_ip a = ground (
    arith,
    contains-append (remove_first (fmt_ipv4 ip) dev.ips) (fmt_ipv4 ip ∷ []) a,
    contains-append dev.ips (fmt_ipv4 ip ∷ []) a,
    contains-remove_first (fmt_ipv4 ip) a dev.ips d,
    ==_iff (fmt_ipv4 ip) a,
  )

-- The last entry of a list.
abbrev pub last {ℓ} : {A : Type ℓ} → List A → Option A
last [] = none
last (x ∷ []) = some x
last (x ∷ y ∷ xs) = last (y ∷ xs)

last-concat {ℓ} : {A : Type ℓ} (xs : List A) (a : A) → last (xs ++ a ∷ []) ≡ some a
last-concat [] a = refl
last-concat (x ∷ []) a = refl
last-concat (x ∷ y ∷ xs) a = last-concat (y ∷ xs) a

last-push_ip : (dev : Device) (ip : ℕ) → last (push_ip dev ip).ips ≡ some (fmt_ipv4 ip)
unfolding push_ip
last-push_ip dev ip =
    last-concat
      (if contains dev.ips (fmt_ipv4 ip) then remove_first (fmt_ipv4 ip) dev.ips else dev.ips)
      (fmt_ipv4 ip)

-- Where no address was listed twice: after an address is observed, it is the last one listed, no address is listed twice, and the
-- addresses listed are those of before and the one observed.
pub push_ip-recent :
    (dev : Device) (ip : ℕ) (a : Bytes)
    → Distinct dev.ips
    → (last (push_ip dev ip).ips ≡ some (fmt_ipv4 ip))
      × Distinct (push_ip dev ip).ips
      × (contains (push_ip dev ip).ips a ≡ (contains dev.ips a || fmt_ipv4 ip == a))
push_ip-recent dev ip a d =
    (last-push_ip dev ip, push_ip-Distinct dev ip d, contains-push_ip dev ip d a)
