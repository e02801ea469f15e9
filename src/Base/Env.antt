-- ===== src/Base/Env.antt =====
-- The environment of the process.
use Prim.Native.String.{String}
use mathlib.Core.Option.{Option}
use coin_pilot.Base.Int.{ℤ}
use coin_pilot.Base.Text.{Text}

-- `os.getenv`, and Python's `int` and `float` of a text, `none` where they raise.
pub record Environment : Type 0 where
  pub getenv : String → Option Text
  pub parse_int : Text → Option ℤ
  pub parse_float : Text → Option ℤ
