-- ===== src/Common/Integers.antt =====
-- Python's int over the native numbers, under the library's names.
use Prim.Native.Nat.{ℕ, zero, suc}

pub data ℤ : Type 0 where
  pos negsuc : ℕ → ℤ

-- the negative of a natural number
unfoldable pub minus : ℕ → ℤ
minus zero = pos 0
minus (suc n) = negsuc n
