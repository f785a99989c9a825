-- ===== src/Base/Int.antt =====
-- Go's `int`, of 64 bits, and `time.Time` (nanoseconds since the Unix epoch), as integers; where the program
-- adds to a number that it was given, the wrap-around is written out.
use Prim.Native.Nat.{ℕ, zero, suc, ◌-◌, ◌*◌, ◌^◌}
use twister_aws.Base.Tests.{eqb, ltb, if◌then◌else◌}
use mathlib.Core.Bool.{Bool, true, false}

-- `negsuc n` is -(n + 1).
pub data ℤ : Type 0 where
  pos : ℕ → ℤ
  negsuc : ℕ → ℤ

-- z + 1
abbrev pub suc_ℤ : ℤ → ℤ
suc_ℤ (pos n) = pos (suc n)
suc_ℤ (negsuc zero) = pos 0
suc_ℤ (negsuc (suc n)) = negsuc n

-- 0 < z
abbrev pub is_positive : ℤ → Bool
is_positive (pos zero) = false
is_positive (pos (suc n)) = true
is_positive (negsuc n) = false

abbrev pub eqb_ℤ : ℤ → ℤ → Bool
eqb_ℤ (pos m) (pos n) = eqb m n
eqb_ℤ (pos m) (negsuc n) = false
eqb_ℤ (negsuc m) (pos n) = false
eqb_ℤ (negsuc m) (negsuc n) = eqb m n

-- The zero value of time.Time, the start of the year 1.
abbrev pub zero_time : ℤ
zero_time = negsuc (62135596800 * 1000000000 - 1)

-- z + 1 of an int, which wraps around at its end.
abbrev pub wrap_suc : ℤ → ℤ
wrap_suc z = if eqb_ℤ z (pos (2 ^ 63 - 1)) then negsuc (2 ^ 63 - 1) else suc_ℤ z

-- The ints: -2^63 to 2^63 - 1.
abbrev pub is_int64 : ℤ → Bool
is_int64 (pos n) = ltb n (2 ^ 63)
is_int64 (negsuc n) = ltb n (2 ^ 63)
