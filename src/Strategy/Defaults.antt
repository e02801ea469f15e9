-- ===== src/Strategy/Defaults.antt =====
-- The regimes that `StrategyConfig` has where no file gives others.
use coin_pilot.Base.{true, false, none, some}
use coin_pilot.Number.{Number, lit, whole}
use coin_pilot.Strategy.Config.{MaCondition, EntryConfig, ExitConfig, Regimes}

module _ {F : Type 0} ⦃f : Number F⦄ where
  abbrev pub bull_entry : EntryConfig F
  bull_entry = record {
    rsi_14_max = whole 50;
    rsi_7_trigger = whole 42;
    rsi_7_recover = whole 42;
    rsi_7_recovery_lookback = some 5;
    min_rsi_7_bounce_pct = some (lit 20 1);
    ma_condition = MaCondition.crossover;
    ma_proximity_pct = none;
    bb_enabled = false;
    require_price_above_bb_lower = false;
    volume_ratio = some (lit 10 1);
    volume_min_ratio = none;
    volume_surge_check = false;
    volume_surge_ratio = none;
  }

  abbrev pub bull_exit : ExitConfig F
  bull_exit = record {
    take_profit_pct = lit 5 2;
    stop_loss_pct = lit 3 2;
    trailing_stop_pct = lit 3 2;
    trailing_stop_activation_pct = lit 1 2;
    rsi_overbought = whole 75;
    rsi_exit_min_profit_pct = lit 1 2;
    time_limit_hours = 72;
  }

  abbrev pub sideways_entry : EntryConfig F
  sideways_entry = record {
    rsi_14_max = whole 48;
    rsi_7_trigger = whole 40;
    rsi_7_recover = whole 42;
    rsi_7_recovery_lookback = some 5;
    min_rsi_7_bounce_pct = some (lit 30 1);
    ma_condition = MaCondition.proximity;
    ma_proximity_pct = some (lit 985 3);
    bb_enabled = true;
    require_price_above_bb_lower = true;
    volume_ratio = none;
    volume_min_ratio = some (lit 4 1);
    volume_surge_check = false;
    volume_surge_ratio = none;
  }

  abbrev pub sideways_exit : ExitConfig F
  sideways_exit = record {
    take_profit_pct = lit 3 2;
    stop_loss_pct = lit 4 2;
    trailing_stop_pct = lit 25 3;
    trailing_stop_activation_pct = lit 1 2;
    rsi_overbought = whole 70;
    rsi_exit_min_profit_pct = lit 1 2;
    time_limit_hours = 48;
  }

  abbrev pub bear_entry : EntryConfig F
  bear_entry = record {
    rsi_14_max = whole 42;
    rsi_7_trigger = whole 30;
    rsi_7_recover = whole 30;
    rsi_7_recovery_lookback = some 5;
    min_rsi_7_bounce_pct = some (lit 20 1);
    ma_condition = MaCondition.proximity_or_above;
    ma_proximity_pct = some (lit 97 2);
    bb_enabled = false;
    require_price_above_bb_lower = true;
    volume_ratio = none;
    volume_min_ratio = some (lit 2 1);
    volume_surge_check = true;
    volume_surge_ratio = some (lit 20 1);
  }

  abbrev pub bear_exit : ExitConfig F
  bear_exit = record {
    take_profit_pct = lit 3 2;
    stop_loss_pct = lit 5 2;
    trailing_stop_pct = lit 2 2;
    trailing_stop_activation_pct = lit 1 2;
    rsi_overbought = whole 70;
    rsi_exit_min_profit_pct = lit 5 3;
    time_limit_hours = 24;
  }

  abbrev pub default_regimes : Regimes F
  default_regimes = record {
    bull_config =
        some
          (record { entry = bull_entry; exit = bull_exit; position_size_ratio = some (lit 10 1) });
    sideways_config = record {
      entry = sideways_entry;
      exit = sideways_exit;
      position_size_ratio = some (lit 8 1);
    };
    bear_config =
        some
          (record { entry = bear_entry; exit = bear_exit; position_size_ratio = some (lit 5 1) });
  }
