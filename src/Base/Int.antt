-- ===== src/Base/Int.antt =====
-- `int` values. `negsuc n` is -(n + 1).
use Prim.Native.Nat.{ℕ}
use mathlib.Core.Bool.{Bool, true, false}
use mqtt_tunnel.Base.Tests.{ltb, leb, ◌==◌ as nat_eq}

pub data ℤ : Type 0 where
  pos : ℕ → ℤ
  negsuc : ℕ → ℤ

abbrev pub pos_part : ℤ → ℕ
pos_part (pos n) = n
pos_part (negsuc n) = 0

-- Comparisons with a number that is not negative.
abbrev pub int_lt : ℤ → ℕ → Bool
int_lt (pos n) m = ltb n m
int_lt (negsuc n) m = true

abbrev pub int_ge : ℤ → ℕ → Bool
int_ge (pos n) m = leb m n
int_ge (negsuc n) m = false

abbrev pub int_gt : ℤ → ℕ → Bool
int_gt (pos n) m = ltb m n
int_gt (negsuc n) m = false

abbrev pub int_is : ℤ → ℕ → Bool
int_is (pos n) m = nat_eq n m
int_is (negsuc n) m = false
