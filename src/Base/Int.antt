-- ===== src/Base/Int.antt =====
-- Signed 64-bit values (`time.Duration`, `int64`) as integers over the native numbers.
use Prim.Native.Nat.{ℕ}
use mathlib.Core.Bool.{Bool, true}
use dutctl.Base.Equality.{ltb}

-- `negsuc n` is -(n + 1).
pub data ℤ : Type 0 where
  pos : ℕ → ℤ
  negsuc : ℕ → ℤ

-- `d <= 0`
abbrev pub nonpositive : ℤ → Bool
nonpositive (pos n) = ltb n 1
nonpositive (negsuc n) = true

abbrev pub pos_part : ℤ → ℕ
pos_part (pos n) = n
pos_part (negsuc n) = 0
