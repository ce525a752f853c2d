-- ===== src/Prelude/Int.antt =====
-- Go's 64-bit `int` and its conversion from `uint64`.
use Prim.Native.Nat.{ℕ, zero, suc, ◌+◌, ◌-◌, ◌%◌, ◌^◌}
use mathlib.Core.Bool.{Bool}
use go_cluster.Prelude.Logic.{ltb, if◌then◌else◌}

-- `negsuc n` is -(n + 1).
pub data ℤ : Type 0 where
  pos : ℕ → ℤ
  negsuc : ℕ → ℤ

abbrev pub pos_part : ℤ → ℕ
pos_part (pos n) = n
pos_part (negsuc n) = 0

abbrev pub neg_part : ℤ → ℕ
neg_part (pos n) = 0
neg_part (negsuc n) = suc n

abbrev pub ltb_ℤ : ℤ → ℤ → Bool
ltb_ℤ a b = ltb (pos_part a + neg_part b) (pos_part b + neg_part a)

-- `a - b` on `uint64`.
unfoldable pub sub_u64 : ℕ → ℕ → ℕ
sub_u64 a b = (a + 2 ^ 64 - b) % 2 ^ 64

-- `a + 1` on `uint64`.
unfoldable pub inc_u64 : ℕ → ℕ
inc_u64 a = (a + 1) % 2 ^ 64

-- `int(a)` of a `uint64`.
unfoldable pub int_of_u64 : ℕ → ℤ
int_of_u64 a = if ltb a (2 ^ 63) then pos a else negsuc (2 ^ 64 - 1 - a)

-- A duration, or the default where it is not positive.
abbrev pub positive_or : ℕ → ℤ → ℕ
positive_or default (pos zero) = default
positive_or default (pos (suc n)) = suc n
positive_or default (negsuc n) = default
