-- ===== src/Tools/Policy.antt =====
-- src/agents/tools/strategy_policy_tool.py: the settings as percentages.
use coin_pilot.Base.{ℕ, Option, none, some}
use coin_pilot.Number.{Number, whole, ◌⊗◌}
use coin_pilot.Number.Format.{Format}
use coin_pilot.Strategy.Config.{Regime, RegimeConfig, Regimes, regime_config}

pub record ExitPolicy (F : Type 0) : Type 0 where
  pub take_profit_pct : F
  pub stop_loss_pct : F
  pub trailing_stop_pct : F
  pub trailing_stop_activation_pct : F
  pub rsi_overbought : F
  pub rsi_exit_min_profit_pct : F
  pub time_limit_hours : ℕ

pub record RiskLimits (F : Type 0) : Type 0 where
  pub max_position_size_pct : F
  pub max_daily_loss_pct : F
  pub max_daily_buy_count : ℕ
  pub cooldown_after_losses : ℕ
  pub cooldown_hours : ℕ
  pub min_trade_interval_minutes : ℕ

-- The settings of StrategyConfig that the tool reads besides the regimes.
pub record LimitSettings (F : Type 0) : Type 0 where
  pub max_position_size : F
  pub max_daily_loss : F
  pub max_daily_trades : ℕ
  pub cooldown_after_consecutive_losses : ℕ
  pub cooldown_hours : ℕ
  pub min_trade_interval_minutes : ℕ

pub record Policy (F : Type 0) : Type 0 where
  pub regime_exit_policy : Regime → Option (ExitPolicy F)
  pub risk_limits : RiskLimits F

module _ {F : Type 0} ⦃n : Number F⦄ ⦃f : Format F⦄ where
  abbrev exit_policy : Option (RegimeConfig F) → Option (ExitPolicy F)
  exit_policy none = none
  exit_policy (some section) = some (record {
    take_profit_pct = section.exit.take_profit_pct ⊗ whole 100;
    stop_loss_pct = section.exit.stop_loss_pct ⊗ whole 100;
    trailing_stop_pct = section.exit.trailing_stop_pct ⊗ whole 100;
    trailing_stop_activation_pct = section.exit.trailing_stop_activation_pct ⊗ whole 100;
    rsi_overbought = f.truncate section.exit.rsi_overbought;
    rsi_exit_min_profit_pct = section.exit.rsi_exit_min_profit_pct ⊗ whole 100;
    time_limit_hours = section.exit.time_limit_hours;
  })

  unfoldable pub run_strategy_policy_tool : Regimes F → LimitSettings F → Policy F
  run_strategy_policy_tool regimes cfg = record {
    regime_exit_policy = λ regime. exit_policy (regime_config regimes regime);
    risk_limits = record {
      max_position_size_pct = cfg.max_position_size ⊗ whole 100;
      max_daily_loss_pct = cfg.max_daily_loss ⊗ whole 100;
      max_daily_buy_count = cfg.max_daily_trades;
      cooldown_after_losses = cfg.cooldown_after_consecutive_losses;
      cooldown_hours = cfg.cooldown_hours;
      min_trade_interval_minutes = cfg.min_trade_interval_minutes;
    };
  }
