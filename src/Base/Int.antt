-- ===== src/Base/Int.antt =====
-- Python's integers where the source lets them be negative.
use Prim.Native.Nat.{ℕ, max}

-- `negsuc n` is -(n + 1).
pub data ℤ : Type 0 where
  pos : ℕ → ℤ
  negsuc : ℕ → ℤ

-- `max(1, n)`
abbrev pub at_least_one : ℤ → ℕ
at_least_one (pos n) = max 1 n
at_least_one (negsuc _) = 1
