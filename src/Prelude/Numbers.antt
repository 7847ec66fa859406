-- ===== src/Prelude/Numbers.antt =====
-- Python's signed integers over the native numbers, and its floating-point numbers, which are not
-- implemented here: a type with the conversions and the comparison that the services use.
use Prim.Native.Nat.{ℕ}
use Prim.Native.String.{String}
use mathlib.Core.Bool.{Bool}
use mathlib.Core.Option.{Option}

-- `negsuc n` is -(n + 1).
pub data ℤ : Type 0 where
  pos : ℕ → ℤ
  negsuc : ℕ → ℤ

pub record Floats : Type 1 where
  pub Float : Type 0
  -- float(n) of an integer; `none` is OverflowError
  pub of_int : ℤ → Option Float
  -- float(s) of a text; `none` is ValueError
  pub parse : String → Option Float
  pub le : Float → Float → Bool
  pub is_finite : Float → Bool
  -- x * n, round(x), and math.isclose(x, n, abs_tol=1e-6)
  pub times : Float → ℕ → Float
  pub round : Float → ℤ
  pub is_close : Float → ℤ → Bool
  -- the text of a number in an f-string, and repr of a text
  pub show : Float → String
  pub repr : String → String

-- Python's `float | int | bool | str`
pub data Value (F : Type 0) : Type 0 where
  double : F → Value F
  int : ℤ → Value F
  bool : Bool → Value F
  str : String → Value F
