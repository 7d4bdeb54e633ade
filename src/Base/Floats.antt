-- ===== src/Base/Floats.antt =====
-- Python's `float`, which the development does not define: the operations that the program uses,
-- and what it relies on.
use Prim.Native.Nat.{ℕ}
use mathlib.Core.Bool.{Bool}
use mathlib.Core.Path.{◌≡◌}
use mathlib.Core.Option.{Option, some}
use owon_xdm1041_server.Base.Strings.{Text}

pub record Floats : Type 1 where
  pub Float : Type 0
  -- `float(text)`; `none` is a `ValueError`.
  pub of_text : Text → Option Float
  pub repr : Float → Text
  -- The literal with the decimal digits of the first number and the second number of decimals.
  pub literal : ℕ → ℕ → Float
  -- The integer difference of two numbers, as a float.
  pub of_difference : ℕ → ℕ → Float
  pub add : Float → Float → Float
  pub mul : Float → Float → Float
  pub div : Float → Float → Float
  pub sub : Float → Float → Float
  -- `a <= b`
  pub le : Float → Float → Bool
  -- `a <= 0`
  pub non_positive : Float → Bool

-- `float(repr(x)) == x`, as the language documents.
pub record IsPrintable (F : Floats) : Type 0 where
  pub of_text-repr : (x : F.Float) → F.of_text (F.repr x) ≡ some x
