-- ===== src/Base/Int.antt =====
-- Signed numbers over the native ones: `negsuc n` is -(n + 1).
use Prim.Native.Nat.{ℕ, zero, suc, ◌-◌, ◌*◌, ◌/◌}
use mathlib.Core.Bool.{Bool, false}
use cacic_agente.Base.Tests.{leb, ◌==◌}

pub data ℤ : Type 0 where
  pos : ℕ → ℤ
  negsuc : ℕ → ℤ

-- `n <= x` for a literal `n` that is not negative.
abbrev pub at_least : ℕ → ℤ → Bool
at_least n (pos x) = leb n x
at_least n (negsuc x) = false

-- A product with a number that is not 0.
abbrev pub times : ℤ → ℕ → ℤ
times (pos x) k = pos (x * k)
times (negsuc x) k = negsuc (suc x * k - 1)

abbrev minus : ℕ → ℤ
minus zero = pos 0
minus (suc n) = negsuc n

-- The quotient, rounded towards 0 as C++ does.
abbrev pub quotient : ℤ → ℕ → ℤ
quotient (pos x) k = pos (x / k)
quotient (negsuc x) k = minus (suc x / k)

abbrev pub eq_int : ℤ → ℤ → Bool
eq_int (pos a) (pos b) = a == b
eq_int (negsuc a) (negsuc b) = a == b
eq_int _ _ = false
