-- ===== src/Floats.antt =====
-- The `float64` operations of Go and of its package math that supervisor.go uses. There are no floats
-- here: they are a parameter, a type with its operations.
use processkit_go.Prelude.{ℤ, Bool}

pub record Floats : Type 1 where
  pub Float : Type 0
  pub of_int : ℤ → Float
  -- `time.Duration(x)`: truncation towards zero.
  pub to_int : Float → ℤ
  -- `d.Seconds()`.
  pub seconds : ℤ → Float
  pub zero_f : Float
  pub half : Float
  pub one : Float
  pub add : Float → Float → Float
  pub mul : Float → Float → Float
  pub div : Float → Float → Float
  pub pow : Float → Float → Float
  -- `a >= b` and `a > b`.
  pub at_least : Float → Float → Bool
  pub above : Float → Float → Bool
  pub is_nan : Float → Bool
  pub is_inf : Float → Bool
  -- `math.Round`.
  pub round : Float → Float
