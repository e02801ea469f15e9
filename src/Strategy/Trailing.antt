-- ===== src/Strategy/Trailing.antt =====
-- `TrailingStop` of src/engine/strategy.py, over the `float`s `F`.
pub mod Peak
pub mod Rebuild
use coin_pilot.Base.{
  Bool, true, false, ◌&&◌, ◌||◌, Option, none, some, List, [], ◌∷◌, if◌then◌else◌, get_or,
}
use coin_pilot.Base.Result.{Result, ok, raise, zero_division, ◌>>=◌, or_raise}
use coin_pilot.Number.{Number, ◌⊖◌, ◌⊗◌, ◌⊘◌, ◌≺◌, ◌≼◌, ◌≈◌, whole}

pub record TrailingStop (F : Type 0) : Type 0 where
  pub entry_price : F
  pub high_water_mark : F
  pub trailing_stop_pct : F
  pub activation_pct : F
  pub activated : Bool

module _ {F : Type 0} ⦃n : Number F⦄ where
  -- `high_water_mark or entry_price`: 0.0 is false, too.
  abbrev pub or_entry : Option F → F → F
  or_entry none entry = entry
  or_entry (some h) entry = if h ≈ whole 0 then entry else h

  -- `(price - entry) / entry`
  unfoldable pub gain : F → F → Result F
  gain price entry = or_raise ((price ⊖ entry) ⊘ entry) zero_division

  -- `high_water_mark is not None and (high_water_mark - entry_price) / entry_price >= activation`
  abbrev starts_active : Option F → F → F → Result Bool
  starts_active none entry activation = ok false
  starts_active (some h) entry activation = do g ← gain h entry; ok (activation ≼ g)

  -- `__init__`
  unfoldable pub create : F → F → F → Option F → Result (TrailingStop F)
  create entry pct activation hwm = do
    active ← starts_active hwm entry activation
    ok record {
      entry_price = entry;
      high_water_mark = or_entry hwm entry;
      trailing_stop_pct = pct;
      activation_pct = activation;
      activated = active;
    }

  -- The new state, and whether the position is to be closed.
  unfoldable pub update : TrailingStop F → F → Result (TrailingStop F × Bool)
  update ts price = do
    let peak = if ts.high_water_mark ≺ price then price else ts.high_water_mark
    profit ← gain price ts.entry_price
    let active = ts.activated || (ts.activation_pct ≼ profit)
    let stop_price = peak ⊗ (whole 1 ⊖ ts.trailing_stop_pct)
    ok (record ts { high_water_mark = peak; activated = active }, active && (price ≼ stop_price))
