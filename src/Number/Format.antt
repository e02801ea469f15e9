-- ===== src/Number/Format.antt =====
-- Python's format specifications of a float, and what the code calls of pandas on a series of them.
use coin_pilot.Base.{List}
use coin_pilot.Base.Text.{Text}

pub record Format {ℓ} (F : Type ℓ) : Type ℓ where
  pub comma0 : F → Text  -- `:,.0f`
  pub fixed1 : F → Text  -- `:.1f`
  pub fixed2 : F → Text  -- `:.2f`
  pub fixed8 : F → Text  -- `:.8f`
  pub signed2 : F → Text  -- `:+.2f`
  pub truncate : F → F  -- `int`, as a number
  pub digits : F → Text  -- `str` of such a whole number
  pub repr : F → Text  -- `str` of a float
  pub round2 : F → F  -- `round(x, 2)`
  pub round4 : F → F  -- `round(x, 4)`

-- `mean` and `std` of a series that is not empty, `pct_change().dropna()`, and `np.sqrt(60)`.
pub record Stats {ℓ} (F : Type ℓ) : Type ℓ where
  pub mean : List F → F
  pub std : List F → F
  pub pct_change : List F → List F
  pub sqrt_60 : F
