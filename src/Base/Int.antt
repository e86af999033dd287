-- ===== src/Base/Int.antt =====
-- The difference of two unsigned values as a signed one.
use Prim.Native.Nat.{ℕ, ◌-◌}
use mts_utils.Base.Tests.{leb, if◌then◌else◌}

-- `negsuc n` is -(n + 1).
pub data ℤ : Type 0 where
  pos : ℕ → ℤ
  negsuc : ℕ → ℤ

abbrev pub sub_ℕ : ℕ → ℕ → ℤ
sub_ℕ a b = if leb b a then pos (a - b) else negsuc (b - a - 1)
