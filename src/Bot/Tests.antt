-- ===== src/Bot/Tests.antt =====
-- Rounds of the bot on concrete inputs. A number x is written `n (10000 * x)`.
use coin_pilot.Base.{get_or, ◌⊎◌, ◌≡◌, ◌≤◌, refl, true, false, none, some, [], ◌∷◌, arith}
use coin_pilot.Base.Dict.{lookup, insert, erase}
use coin_pilot.Base.Int.{ℤ, pos, ◌-ℤ◌, ◌+ℤ◌, ◌*ℤ◌}
use coin_pilot.Base.Result.{ok}
use coin_pilot.Number.Fixed.{fixed, same, fixed-IsOrdered}
use coin_pilot.Store.{Db, Position}
use coin_pilot.Strategy.Config.{Regime, MaCondition, EntryConfig, ExitConfig}
use coin_pilot.Strategy.Entry.{
  check_entry_signal, evaluate_entry_conditions, check_rsi_14, check_rsi_7, check_price,
  check_volume, check_bb_recovery,
}
use coin_pilot.Strategy.Exit.{
  ExitReason, check_exit_signal, get_adjusted_exit_config, decide, pnl_ratio,
}
use coin_pilot.Risk.{
  state_of, get_daily_state, open_positions, count_open_positions, get_current_price, valuation,
  exposure_from, get_total_exposure, get_total_equity, get_reference_equity, has_position,
  get_volatility_multiplier, loss_floor, max_order_amount, available_cash, apply_rules, check_in,
  check_order_validity,
}
use coin_pilot.Executor.{
  get_balance, set_balance, set_position, delete_position, add_history, add_to_position,
  open_position, execute_buy, execute_sell, record_fill, fill, order_body, execute_order,
}
use coin_pilot.Executor.Effects.{with_account}
use coin_pilot.Redis.Table.{empty, table}
use coin_pilot.Guardrails.{GuardConfig, should_block_ai_call, mark_ai_call_started, bump}
use coin_pilot.Prefilter.{
  PrefilterConfig, BearFeatures, Worthy, should_run_ai_analysis, should_run-Worthy,
}
use coin_pilot.Bot.{
  BotConfig, Round, bought, sold, caps, invest_amount, place_buy, try_buy, entry_round, exit_round,
  symbol_round,
}
use coin_pilot.Bot.Buys.{Cleared, symbol_round-Cleared}
use coin_pilot.Bot.Exits.{Closed, symbol_round-Closed}
use coin_pilot.Bot.Limit.{rounds, rounds-Bounded}

abbrev entry : EntryConfig ℤ
entry = record {
  rsi_14_max = pos 480_000;
  rsi_7_trigger = pos 400_000;
  rsi_7_recover = pos 420_000;
  rsi_7_recovery_lookback = some 5;
  min_rsi_7_bounce_pct = some (pos 30_000);
  ma_condition = MaCondition.proximity;
  ma_proximity_pct = some (pos 9850);
  bb_enabled = true;
  require_price_above_bb_lower = true;
  volume_ratio = none;
  volume_min_ratio = some (pos 4000);
  volume_surge_check = false;
  volume_surge_ratio = none;
}

abbrev exit : ExitConfig ℤ
exit = record {
  take_profit_pct = pos 300;
  stop_loss_pct = pos 400;
  trailing_stop_pct = pos 250;
  trailing_stop_activation_pct = pos 100;
  rsi_overbought = pos 700_000;
  rsi_exit_min_profit_pct = pos 100;
  time_limit_hours = 48;
}

abbrev guard : GuardConfig
guard = record {
  reject_cooldown_min_1 = some 5;
  reject_cooldown_min_2 = some 10;
  reject_cooldown_min_3 = some 15;
  reject_cooldown_window_min = some 30;
  max_calls_per_hour = some 20;
  max_calls_per_day = some 120;
  credit_block_minutes = some 60;
  error_streak_threshold = some 5;
  error_block_minutes = some 30;
}

abbrev prefilter : PrefilterConfig ℤ
prefilter = record {
  enabled = some true;
  min_context_candles = some 12;
  max_downtrend_ratio = none;
  min_rebound_pct = none;
  min_volume_recovery_ratio = none;
}

abbrev config : BotConfig ℤ ℤ
config = record {
  regimes = record {
    bull_config = none;
    sideways_config = record { entry = entry; exit = exit; position_size_ratio = some (pos 8000) };
    bear_config = none;
  };
  guard = λ _. guard;
  prefilter = λ _. prefilter;
  risk = record {
    max_per_order = pos 500;
    max_daily_loss = pos 500;
    max_daily_trades = 10;
    cooldown_hours = 2;
    fee_buffer = pos 20;
    max_total_exposure = pos 2000;
    max_concurrent_positions = 3;
    allow_same_coin_duplicate = false;
  };
  default_balance = pos 100_000_000_000;
}

abbrev features : BearFeatures ℤ
features = record { downtrend_ratio = none; rebound_pct = none; volume_recovery_ratio = none }

abbrev round : ℤ → Round ℤ ℤ
round close = record {
  symbol = 7;
  candles = 200;
  age = 60_000_000;
  indicators = record {
    regime = Regime.sideways;
    rsi = some (pos 450_000);
    rsi_short = some (pos 430_000);
    rsi_short_prev = some (pos 410_000);
    rsi_short_min_lookback = some (pos 350_000);
    ma_trend = some (pos 1_000_000);
    vol_ratio = some (pos 9000);
    recent_vol_ratios = [];
    close = some close;
    bb_lower = some (pos 950_000);
    bb_touch_recovery = true;
  };
  close = close;
  env = record {
    today = 1;
    now = 90_000_000_000;
    reference_override = none;
    cached_reference = none;
    cached_price = λ _. none;
    latest_close = λ _. none;
    is_high_volatility = false;
  };
  context_len = 24;
  features = features;
  answer = ok (true, "fine");
}

abbrev start : Db ℤ
start = record { account = none; positions = []; daily_risk_state = []; trading_history = [] }

abbrev held : Position ℤ
held = record {
  quantity = pos 20_000;
  avg_price = pos 1_000_000;
  regime = some Regime.sideways;
  high_water_mark = some (pos 1_010_000);
  opened_at = 1;
}

abbrev holding : Db ℤ
holding = record start { positions = (7, held) ∷ [] }

should_run-Worthy_example :
    (get_or prefilter.enabled true ≡ false) ⊎ Worthy Regime.bear features 24 prefilter
unfolding should_run_ai_analysis
should_run-Worthy_example =
    (should_run-Worthy fixed-IsOrdered Regime.bear features 24 prefilter).0 refl

buys : (symbol_round table config (round (pos 1_000_000)) (start, some empty)).0 ≡ bought
unfolding symbol_round entry_round try_buy place_buy caps invest_amount check_entry_signal
    evaluate_entry_conditions check_rsi_14 check_rsi_7 check_price check_volume check_bb_recovery
    check_order_validity get_daily_state check_in get_reference_equity get_total_equity
    get_total_exposure open_positions exposure_from valuation get_current_price
    get_volatility_multiplier count_open_positions has_position apply_rules loss_floor
    max_order_amount available_cash get_balance execute_order order_body fill execute_buy
    set_balance set_position add_to_position open_position record_fill add_history
    should_run_ai_analysis should_block_ai_call mark_ai_call_started bump ◌+ℤ◌ ◌-ℤ◌ ◌*ℤ◌ lookup
    insert
buys = refl

symbol_round-Cleared_example :
    (lookup 7 start.positions ≡ none)
    × Cleared table config
        (round (pos 1_000_000))
        (with_account (pos 100_000_000_000) start)
        (some empty)
symbol_round-Cleared_example =
    symbol_round-Cleared table config (round (pos 1_000_000)) fixed-IsOrdered start (some empty)
      buys

sells :
    (symbol_round table config (round (pos 950_000)) (holding, some empty)).0
    ≡ sold ExitReason.stop_loss
unfolding symbol_round exit_round check_exit_signal get_adjusted_exit_config decide pnl_ratio
    get_balance execute_order order_body fill execute_sell set_balance set_position delete_position
    record_fill add_history ◌+ℤ◌ ◌-ℤ◌ ◌*ℤ◌ lookup erase insert
sells = refl

symbol_round-Closed_example :
    (p : Position ℤ) × (lookup 7 holding.positions ≡ some p)
    × Closed table config
        (round (pos 950_000))
        p
        ExitReason.stop_loss
        holding
        (symbol_round table config (round (pos 950_000)) (holding, some empty)).1.0
symbol_round-Closed_example =
    symbol_round-Closed table config (round (pos 950_000)) fixed-IsOrdered ExitReason.stop_loss
      holding (some empty) sells

none_yet : (state_of start 1).buy_count ≤ 10
unfolding lookup
none_yet = ground arith

rounds-Bounded_example :
    (state_of
      (rounds table config (round (pos 1_000_000) ∷ round (pos 950_000) ∷ []) (start, some empty)).0
      1).buy_count
    ≤ 10
rounds-Bounded_example =
    rounds-Bounded table config (round (pos 1_000_000) ∷ round (pos 950_000) ∷ []) start
      (some empty) 1 none_yet
