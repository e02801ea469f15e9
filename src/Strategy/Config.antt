-- ===== src/Strategy/Config.antt =====
-- The settings of src/config/strategy.py. `W` is the type of the `float`s.
-- A key that the code reads by `.get` is an `Option`, or the truth of its value; one that it reads
-- by `[...]` is a plain field.
use coin_pilot.Base.{ℕ, Bool, Option}

-- What `detect_regime` returns.
pub data Regime : Type 0 where
  bull sideways bear unknown : Regime

pub data MaCondition : Type 0 where
  crossover proximity proximity_or_above other : MaCondition

pub record EntryConfig (W : Type 0) : Type 0 where
  pub rsi_14_max : W
  pub rsi_7_trigger : W
  pub rsi_7_recover : W
  pub rsi_7_recovery_lookback : Option ℕ
  pub min_rsi_7_bounce_pct : Option W
  pub ma_condition : MaCondition
  pub ma_proximity_pct : Option W
  pub bb_enabled : Bool
  pub require_price_above_bb_lower : Bool
  pub volume_ratio : Option W
  pub volume_min_ratio : Option W
  pub volume_surge_check : Bool
  pub volume_surge_ratio : Option W

pub record ExitConfig (W : Type 0) : Type 0 where
  pub take_profit_pct : W
  pub stop_loss_pct : W
  pub trailing_stop_pct : W
  pub trailing_stop_activation_pct : W
  pub rsi_overbought : W
  pub rsi_exit_min_profit_pct : W
  pub time_limit_hours : ℕ

pub record RegimeConfig (W : Type 0) : Type 0 where
  pub entry : EntryConfig W
  pub exit : ExitConfig W
  pub position_size_ratio : Option W

-- The dict `REGIMES`. Its key "SIDEWAYS" is read by `[...]`, so it is a field of its own.
pub record Regimes (W : Type 0) : Type 0 where
  pub bull_config : Option (RegimeConfig W)
  pub sideways_config : RegimeConfig W
  pub bear_config : Option (RegimeConfig W)

-- `REGIMES.get(regime)`
abbrev pub regime_config : {W : Type 0} → Regimes W → Regime → Option (RegimeConfig W)
regime_config r Regime.bull = r.bull_config
regime_config r Regime.sideways = Option.some r.sideways_config
regime_config r Regime.bear = r.bear_config
regime_config r Regime.unknown = Option.none
