-- ===== src/Risk/Tests.antt =====
-- The risk manager on concrete inputs, with the limits of src/config/strategy.py. A number x is
-- written `n (10000 * x)`.
use coin_pilot.Base.{ℕ, arith, ◌≡◌, refl, ◌≢◌, true, false, Option, none, some, List, [], ◌∷◌}
use coin_pilot.Base.Dict.{lookup, insert}
use coin_pilot.Base.Int.{ℤ, pos, negsuc, ◌-ℤ◌, ◌+ℤ◌, ◌*ℤ◌}
use coin_pilot.Number.Fixed.{fixed}
use coin_pilot.Store.{Db, DailyRiskState, buy, sell}
use coin_pilot.Risk.{
  RiskConfig, Env, Rejection, state_of, get_daily_state, open_positions, count_open_positions,
  get_current_price, valuation, exposure_from, get_total_exposure, get_total_equity,
  get_reference_equity, has_position, get_volatility_multiplier, loss_floor, max_order_amount,
  available_cash, apply_rules, check_in, check_order_validity, update_after_trade,
}
use coin_pilot.Risk.Approval.{Approved, check_order_validity-Approved}
use coin_pilot.Risk.Day.{Op, check, trade, run}
use coin_pilot.Risk.Day.Halt.{IsHalted, halt_lasts}
use coin_pilot.Risk.Day.Accounts.{Accounts, run-Accounts}
use coin_pilot.Risk.Day.Streak.{lose, lose_streak, third_loss_blocks}

abbrev limits : RiskConfig ℤ
limits = record {
  max_per_order = pos 500;
  max_daily_loss = pos 500;
  max_daily_trades = 10;
  cooldown_hours = 2;
  fee_buffer = pos 20;
  max_total_exposure = pos 5000;
  max_concurrent_positions = 2;
  allow_same_coin_duplicate = false;
}

abbrev at : ℕ → Env ℤ
at now = record {
  today = 1;
  now = now;
  reference_override = none;
  cached_reference = none;
  cached_price = λ _. none;
  latest_close = λ _. none;
  is_high_volatility = false;
}

abbrev quiet : DailyRiskState ℤ
quiet = record {
  total_pnl = pos 0;
  buy_count = 1;
  sell_count = 2;
  trade_count = 3;
  consecutive_losses = 2;
  cooldown_until = none;
  is_trading_halted = false;
}

-- 1,000,000 in cash, and one coin bought at 100,000.
abbrev tables : DailyRiskState ℤ → Db ℤ
tables s = record {
  account = some (pos 10_000_000_000);
  positions =
      (
        7,
        record {
          quantity = pos 10_000;
          avg_price = pos 1_000_000_000;
          regime = none;
          high_water_mark = none;
          opened_at = 0;
        },
      )
      ∷ [];
  daily_risk_state = (1, s) ∷ [];
  trading_history = [];
}

equity : get_total_equity (at 0) (tables quiet) ≡ pos 11_000_000_000
unfolding get_total_equity get_total_exposure open_positions exposure_from valuation
    get_current_price ◌+ℤ◌ ◌*ℤ◌
equity = refl

abbrev loser : DailyRiskState ℤ
loser = record quiet { total_pnl = negsuc 599_999_999 }

abbrev rejection : DailyRiskState ℤ → ℕ → ℤ → Option Rejection
rejection s symbol amount = (check_order_validity limits (at 0) symbol amount (tables s)).rejection

-- The limit of an order is 5% of 1,100,000; a loss of 60,000 is above 5%, and halts the day.
rules :
    (rejection quiet 8 (pos 550_000_000) ≡ none)
    × (rejection quiet 8 (pos 550_000_001) ≡ some Rejection.order_limit)
    × (rejection quiet 7 (pos 550_000_000) ≡ some Rejection.duplicate)
    × (rejection loser 8 (pos 1_0000) ≡ some Rejection.daily_loss)
    × (state_of (check_order_validity limits (at 0) 8 (pos 1_0000) (tables loser)).db 1
        ≡ record loser { is_trading_halted = true })
unfolding check_order_validity get_daily_state check_in get_reference_equity get_total_equity
    get_total_exposure open_positions exposure_from valuation get_current_price
    get_volatility_multiplier count_open_positions has_position apply_rules loss_floor
    max_order_amount available_cash ◌+ℤ◌ ◌-ℤ◌ ◌*ℤ◌ lookup insert
rules = (refl, refl, refl, refl, refl)

check_order_validity-Approved_example :
    Approved limits (at 0) 8 (pos 550_000_000) (tables quiet) quiet
unfolding lookup
check_order_validity-Approved_example =
    (check_order_validity-Approved limits (at 0) 8 (pos 550_000_000) (tables quiet)).0 rules.0

abbrev ops : List (Op ℤ)
ops =
    check (at 0) 8 (pos 550_000_000)
    ∷ trade (at 1) (pos 0) buy
    ∷ trade (at 2) (pos 30_0000) sell
    ∷ trade (at 3) (negsuc 9_9999) sell
    ∷ []

halt_lasts_example :
    IsHalted 1 (run limits ops (tables (record quiet { is_trading_halted = true })))
    × ((check_order_validity limits
          (at 9)
          8
          (pos 1_0000)
          (run limits ops (tables (record quiet { is_trading_halted = true })))).rejection
        ≢ none)
unfolding lookup
halt_lasts_example =
    halt_lasts limits ops (tables (record quiet { is_trading_halted = true })) (at 9) 8 (pos 1_0000)
      refl

run-Accounts_example : Accounts quiet 1 ops (state_of (run limits ops (tables quiet)) 1)
unfolding lookup
run-Accounts_example = run-Accounts limits ops (tables quiet) 1

lose_streak_example :
    ((lose limits
        ((1, negsuc 0) ∷ (2, negsuc 5) ∷ (3, negsuc 0) ∷ (4, negsuc 0) ∷ [])
        (record quiet { consecutive_losses = 0 })).consecutive_losses
      ≡ 1)
    × ((lose limits
          ((1, negsuc 0) ∷ (2, negsuc 5) ∷ (3, negsuc 0) ∷ (4, negsuc 0) ∷ [])
          (record quiet { consecutive_losses = 0 })).cooldown_until
        ≡ some 7_200_000_003)
lose_streak_example =
    lose_streak limits ((1, negsuc 0) ∷ (2, negsuc 5) ∷ (3, negsuc 0) ∷ (4, negsuc 0) ∷ [])
      (record quiet { consecutive_losses = 0 }) (refl, (refl, (refl, (refl, tt)))) refl

third_loss_blocks_example :
    (check_order_validity limits
      (at 7_000_000_000)
      8
      (pos 1_0000)
      (update_after_trade limits (at 5) (negsuc 3) sell (tables quiet))).rejection
    ≢ none
unfolding lookup
third_loss_blocks_example =
    third_loss_blocks limits (at 5) (at 7_000_000_000) (negsuc 3) (pos 1_0000) 8 (tables quiet) refl
      refl refl (ground arith)
