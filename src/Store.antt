-- ===== src/Store.antt =====
-- The tables of src/common/models.py that the trading loop reads and writes. `D` is `Decimal`;
-- symbols and dates are only compared, and stand as numbers; times are microseconds.
use coin_pilot.Base.{ℕ, Bool, Option, List}
use coin_pilot.Base.Dict.{Dict}
use coin_pilot.Strategy.Config.{Regime}
use coin_pilot.Strategy.Exit.{ExitReason}

pub record Position (D : Type 0) : Type 0 where
  pub quantity : D
  pub avg_price : D
  pub regime : Option Regime
  pub high_water_mark : Option D
  pub opened_at : ℕ

pub record DailyRiskState (D : Type 0) : Type 0 where
  pub total_pnl : D
  pub buy_count : ℕ
  pub sell_count : ℕ
  pub trade_count : ℕ
  pub consecutive_losses : ℕ
  pub cooldown_until : Option ℕ
  pub is_trading_halted : Bool

pub data Side : Type 0 where
  buy sell : Side

pub record TradingHistory (D : Type 0) : Type 0 where
  pub symbol : ℕ
  pub side : Side
  pub price : D
  pub quantity : D
  pub regime : Option Regime
  pub high_water_mark : D
  pub exit_reason : Option ExitReason
  pub executed_at : ℕ

-- `account` is the balance in the row of `account_state` whose id is 1.
pub record Db (D : Type 0) : Type 0 where
  pub account : Option D
  pub positions : Dict (Position D)
  pub daily_risk_state : Dict (DailyRiskState D)
  pub trading_history : List (TradingHistory D)
