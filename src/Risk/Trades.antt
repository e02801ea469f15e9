-- ===== src/Risk/Trades.antt =====
-- `update_after_trade`: the counters of the day, and the cooldown after three losses in a row.
use coin_pilot.Base.{ℕ, ◌+◌, ◌*◌, some, if◌then◌else◌, leb}
use coin_pilot.Number.{Number, ◌⊕◌, ◌≺◌, whole}
use coin_pilot.Store.{Db, DailyRiskState, Side, buy, sell}
use coin_pilot.Risk.Queries.{RiskConfig, Env, get_daily_state, save_state}

module _ {D : Type 0} ⦃d : Number D⦄ (cfg : RiskConfig D) where
  -- A loss, the third of a row also starts the cooldown and the count anew.
  unfoldable pub after_loss : ℕ → DailyRiskState D → DailyRiskState D
  after_loss now s =
      if leb 3 (s.consecutive_losses + 1)
      then record s {
        cooldown_until = some (now + cfg.cooldown_hours * 3_600_000_000);
        consecutive_losses = 0;
      }
      else record s { consecutive_losses = s.consecutive_losses + 1 }

  unfoldable pub after_sell : ℕ → D → DailyRiskState D → DailyRiskState D
  unfolding after_loss
  after_sell now pnl s =
      let t = record s {
        sell_count = s.sell_count + 1;
        trade_count = s.trade_count + 1;
        total_pnl = s.total_pnl ⊕ pnl;
      } in
      if pnl ≺ whole 0 then after_loss now t else record t { consecutive_losses = 0 }

  unfoldable pub after_trade : ℕ → D → Side → DailyRiskState D → DailyRiskState D
  unfolding after_sell
  after_trade now pnl buy s = record s {
    buy_count = s.buy_count + 1;
    trade_count = s.trade_count + 1;
  }
  after_trade now pnl sell s = after_sell now pnl s

  unfoldable pub update_after_trade : Env D → D → Side → Db D → Db D
  update_after_trade env pnl side db₀ =
      let (state, db) = get_daily_state env db₀ in
      save_state env.today (after_trade env.now pnl side state) db
