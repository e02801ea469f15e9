-- ===== src/Strategy/Exit.antt =====
-- `get_adjusted_exit_config` and `check_exit_signal` of src/engine/strategy.py.
-- `D` is `Decimal` and `F` is `float`. Times are microseconds since the epoch, all in UTC.
pub mod Adjusted
pub mod Decision
use coin_pilot.Base.{
  ℕ, ◌*◌, ◌-◌, Bool, true, false, not, ◌&&◌, Option, none, some, if◌then◌else◌, ltb, get_or,
}
use coin_pilot.Base.Result.{Result, ok, invalid_operation, zero_division, ◌>>=◌, or_raise}
use coin_pilot.Number.{Number, Convert, ◌⊖◌, ◌⊘◌, ◌≺◌, ◌≼◌, ◌≈◌, whole}
use coin_pilot.Strategy.Config.{Regime, ExitConfig, RegimeConfig, Regimes, regime_config}
use coin_pilot.Strategy.Trailing.{TrailingStop, create, update}

pub data ExitReason : Type 0 where
  stop_loss trailing_stop take_profit rsi_overbought time_limit : ExitReason

-- The keys of `position_info` that the code reads.
pub record PositionInfo (D : Type 0) : Type 0 where
  pub avg_price : D
  pub opened_at : Option ℕ
  pub regime : Option Regime
  pub high_water_mark : Option D

-- `(True, reason)` is `some reason`; `new_hwm` is what the call writes to `indicators["new_hwm"]`.
pub record Exit (F : Type 0) : Type 0 where
  pub reason : Option ExitReason
  pub new_hwm : Option F

abbrev pub same_regime : Option Regime → Regime → Bool
same_regime (some Regime.bull) Regime.bull = true
same_regime (some Regime.sideways) Regime.sideways = true
same_regime (some Regime.bear) Regime.bear = true
same_regime (some Regime.unknown) Regime.unknown = true
same_regime _ _ = false

-- `min(a, b)` of Python: the first, unless the second is less.
abbrev pub min_of : {F : Type 0} ⦃n : Number F⦄ → F → F → F
min_of a b = if b ≺ a then b else a

-- `now - opened_at > timedelta(hours=…)`
abbrev pub held_longer : Option ℕ → ℕ → ℕ → Bool
held_longer none now hours = false
held_longer (some opened) now hours = ltb (hours * 3_600_000_000) (now - opened)

module _ {F : Type 0} ⦃f : Number F⦄ where
  -- `REGIMES.get(regime, REGIMES["SIDEWAYS"])["exit"]`
  abbrev pub exit_config : Regimes F → Option Regime → ExitConfig F
  exit_config regimes none = regimes.sideways_config.exit
  exit_config regimes (some r) = (get_or (regime_config regimes r) regimes.sideways_config).exit

  unfoldable pub get_adjusted_exit_config : Regimes F → Option Regime → Regime → ExitConfig F
  get_adjusted_exit_config regimes entry_regime current =
      let at_entry = exit_config regimes entry_regime in
      let now = exit_config regimes (some current) in
      if same_regime entry_regime current
      then at_entry
      else record now { stop_loss_pct = min_of at_entry.stop_loss_pct now.stop_loss_pct }

  -- `if rsi_14 and rsi_14 > …`: a missing RSI, or one of 0.0, is false.
  abbrev pub rsi_over : Option F → F → Bool
  rsi_over none limit = false
  rsi_over (some r) limit = not (r ≈ whole 0) && (limit ≺ r)

  -- The tests after the trailing stop, in their order.
  abbrev pub later_exit : ExitConfig F → F → Option F → Option ℕ → ℕ → Option ExitReason
  later_exit cfg pnl rsi opened now =
      if cfg.take_profit_pct ≼ pnl
      then some take_profit
      else if rsi_over rsi cfg.rsi_overbought && (cfg.rsi_exit_min_profit_pct ≼ pnl)
      then some rsi_overbought
      else if held_longer opened now cfg.time_limit_hours
      then some time_limit
      else none

module _ {D F : Type 0} ⦃d : Number D⦄ ⦃f : Number F⦄ ⦃c : Convert D F⦄ where
  -- `float(hwm) if hwm else float(entry_price)`
  abbrev pub mark_of : Option D → D → F
  mark_of none entry = c.to_float entry
  mark_of (some h) entry = c.to_float (if h ≈ whole 0 then entry else h)

  -- `float((close - entry_price) / entry_price)`
  unfoldable pub pnl_ratio : D → D → Result F
  pnl_ratio close entry = do q ← or_raise ((close ⊖ entry) ⊘ entry) zero_division; ok (c.to_float q)

  -- The decision under the exit settings of the moment, for a position with a price.
  unfoldable pub decide : ExitConfig F → Option F → PositionInfo D → D → ℕ → Result (Exit F)
  decide cfg rsi pos close now = do
    pnl ← pnl_ratio close pos.avg_price
    if pnl ≼ f.neg cfg.stop_loss_pct
        then ok record { reason = some stop_loss; new_hwm = none }
        else do
          ts ←
              create (c.to_float pos.avg_price) cfg.trailing_stop_pct
                cfg.trailing_stop_activation_pct (some (mark_of pos.high_water_mark pos.avg_price))
          (ts', fired) ← update ts (c.to_float close)
          ok record {
            reason = if fired then some trailing_stop else later_exit cfg pnl rsi pos.opened_at now;
            new_hwm = some ts'.high_water_mark;
          }

  -- `check_exit_signal`. The close and RSI(14) are those of the indicators, and `current` their
  -- regime. A missing close is `Decimal("None")`, which raises.
  unfoldable pub check_exit_signal :
      Regimes F → Regime → Option F → Option F → PositionInfo D → ℕ → Result (Exit F)
  check_exit_signal regimes current close? rsi pos now = do
    close ← or_raise close? invalid_operation
    if pos.avg_price ≈ whole 0
        then ok record { reason = none; new_hwm = none }
        else decide (get_adjusted_exit_config regimes pos.regime current) rsi pos
            (c.to_decimal close) now
