-- ===== src/Common.antt =====
-- lanscope-common: the types shared across the kernel boundary.
pub mod Flow
pub mod Event
use lanscope.Base.{suc, arith, get_or, ℕ, zero, ◌≡◌, All, length, ◌<◌, [], ◌∷◌}
use lanscope.Base.Text.{Bytes}

-- `[u8; 6]`; the length is kept by `IsMac`.
abbrev pub MacAddr : Type 0
MacAddr = Bytes

abbrev pub IsMac : MacAddr → Type 0
IsMac mac = (length mac ≡ 6) × All (λ b. b < 256) mac

abbrev pub zero_mac : MacAddr
zero_mac = 0 ∷ 0 ∷ 0 ∷ 0 ∷ 0 ∷ 0 ∷ []

pub get_or_lt : (s : Bytes) (i : ℕ) → All (λ b. b < 256) s → get_or s i 0 < 256
get_or_lt [] i h = omega arith
get_or_lt (b ∷ s) zero h = h.0
get_or_lt (b ∷ s) (suc i) h = get_or_lt s i h.1
