-- ===== src/Error.antt =====
-- lanscope/src/error.rs: the errors, each with the text of what it wraps, and a result.
use lanscope.Base.{refl, inr, inl, ◌⊎◌, ◌≡◌, ◌++◌}
use lanscope.Base.Text.{codes, Bytes}

pub data Error : Type 0 where
  storage io feature_disabled config model_not_found other : Bytes → Error
  backend_unavailable : Bytes → Bytes → Error

-- `Display`
unfoldable pub to_string : Error → Bytes
to_string (storage e) = codes "storage error: " ++ e
to_string (io e) = codes "i/o error: " ++ e
to_string (backend_unavailable backend reason) =
    codes "capture backend `" ++ (backend ++ (codes "` is unavailable: " ++ reason))
to_string (feature_disabled f) =
    codes "the `"
    ++ (f ++ (codes "` capture backend requires building with `--features " ++ (f ++ codes "`")))
to_string (config e) = codes "config error: " ++ e
to_string (model_not_found path) = codes "model not found at " ++ path
to_string (other e) = e

pub data Result {ℓ} (A : Type ℓ) : Type ℓ where
  ok : A → Result A
  err : Error → Result A

-- `?`
infixl 5 ◌>>=◌
abbrev pub ◌>>=◌ {ℓ κ} : {A : Type ℓ} {B : Type κ} → Result A → (A → Result B) → Result B
ok a >>= next = next a
err e >>= next = err e

pub Result-cases {ℓ} :
    {A : Type ℓ} (r : Result A) → ((a : A) × (r ≡ ok a)) ⊎ ((e : Error) × (r ≡ err e))
Result-cases (ok a) = inl (a, refl)
Result-cases (err e) = inr (e, refl)
