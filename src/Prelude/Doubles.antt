-- ===== src/Prelude/Doubles.antt =====
-- `float64`: the type and what the program uses of it, as a parameter. No law of it is assumed.
use Prim.Native.Nat.{ℕ}
use mathlib.Core.Bool.{Bool}

pub record Floats : Type 1 where
  pub Float : Type 0
  -- The constant `n / 10 ^ k`.
  pub literal : ℕ → ℕ → Float
  pub times : Float → Float → Float
  pub minus : Float → Float → Float
  pub maximum : Float → Float → Float
  pub minimum : Float → Float → Float
  pub less : Float → Float → Bool
  pub at_most : Float → Float → Bool
