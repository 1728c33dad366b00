-- ===== src/Base/Int.antt =====
-- The signed results of the program: `negsuc n` is -(n + 1).
use Prim.Native.Nat.{ℕ, ◌-◌}
use mathlib.Core.Bool.{Bool, false}
use rsnova.Base.Tests.{leb, if◌then◌else◌}

pub data ℤ : Type 0 where
  pos : ℕ → ℤ
  negsuc : ℕ → ℤ

-- a - b, as an integer.
abbrev pub sub_ℕ : ℕ → ℕ → ℤ
sub_ℕ a b = if leb b a then pos (a - b) else negsuc (b - a - 1)

-- Whether the number is less than -n.
abbrev pub lt_neg : ℤ → ℕ → Bool
lt_neg (pos m) n = false
lt_neg (negsuc m) n = leb n m
