-- ===== src/Prelude/Int.antt =====
-- Go's `int` and `int64` as integers, with the conversions to and from `uint64`, which wrap.
use Prim.Native.Nat.{ℕ, ◌-◌, ◌%◌, ◌<◌, ◌^◌}
use mathlib.Core.Path.{◌≡◌}
use native.Mathlib.Omega.{arith}
use mathlib.Core.Bool.{Bool, true, false}
use chain_application.Prelude.Tests.{ltb, leb, if◌then◌else◌}

-- `negsuc n` is -(n + 1).
pub data ℤ : Type 0 where
  pos : ℕ → ℤ
  negsuc : ℕ → ℤ

-- The number of steps up from zero.
abbrev pub pos_part : ℤ → ℕ
pos_part (pos n) = n
pos_part (negsuc n) = 0

-- `uint64(i)`.
unfoldable pub to_uint64 : ℤ → ℕ
to_uint64 (pos n) = n % 2 ^ 64
to_uint64 (negsuc n) = 2 ^ 64 - 1 - n % 2 ^ 64

-- `int(u)`.
unfoldable pub of_uint64 : ℕ → ℤ
of_uint64 u = if ltb u (2 ^ 63) then pos u else negsuc (2 ^ 64 - 1 - u)

-- A `uint64` survives the way through `int` and back, though it may be negative there.
pub to_uint64-of_uint64 : (u : ℕ) → u < 2 ^ 64 → to_uint64 (of_uint64 u) ≡ u
unfolding to_uint64 of_uint64
to_uint64-of_uint64 u h = ground arith

-- `a <= b`.
unfoldable pub at_most_int : ℤ → ℤ → Bool
at_most_int (pos a) (pos b) = leb a b
at_most_int (pos a) (negsuc b) = false
at_most_int (negsuc a) (pos b) = true
at_most_int (negsuc a) (negsuc b) = leb b a
