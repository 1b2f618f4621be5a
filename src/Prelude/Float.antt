-- ===== src/Prelude/Float.antt =====
-- Go's float64, which is not modelled: its operations are a parameter of the code that uses them.
use Prim.Native.Nat.{ℕ}
use mathlib.Core.Bool.{Bool}
use server_flow.Prelude.Int.{ℤ}

pub record Float64 : Type 1 where
  pub Float : Type 0
  -- float64(n)
  pub of_int : ℕ → Float
  -- lit m k is the literal m / 10 ^ k.
  pub lit : ℕ → ℕ → Float
  pub add : Float → Float → Float
  pub sub : Float → Float → Float
  pub mul : Float → Float → Float
  pub fltb : Float → Float → Bool
  pub fleb : Float → Float → Bool
  -- int(math.Floor(x)) and the conversion to an integer type, which drops the fraction.
  pub floor : Float → ℤ
  pub trunc : Float → ℤ
  pub div : Float → Float → Float
  pub fmin : Float → Float → Float
  pub abs : Float → Float
  -- math.Inf(1)
  pub inf : Float
  pub is_inf : Float → Bool
  pub is_nan : Float → Bool
  pub ceil : Float → ℤ
