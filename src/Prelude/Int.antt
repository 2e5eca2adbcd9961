-- ===== src/Prelude/Int.antt =====
-- The integers of C's `int` and `long` fields that may be negative.
use Prim.Native.Nat.{ℕ}
use mathlib.Core.Bool.{Bool, true, false, not}
use smpp_server.Prelude.Tests.{leb, ◌==◌}

-- `negsuc n` is -(n + 1).
pub data ℤ : Type 0 where
  pos : ℕ → ℤ
  negsuc : ℕ → ℤ

abbrev pub minus_one : ℤ
minus_one = negsuc 0

abbrev pub eqz : ℤ → ℤ → Bool
eqz (pos a) (pos b) = a == b
eqz (negsuc a) (negsuc b) = a == b
eqz _ _ = false

abbrev pub lez : ℤ → ℤ → Bool
lez (pos a) (pos b) = leb a b
lez (pos _) (negsuc _) = false
lez (negsuc _) (pos _) = true
lez (negsuc a) (negsuc b) = leb b a

abbrev pub ltz : ℤ → ℤ → Bool
ltz a b = not (lez b a)
