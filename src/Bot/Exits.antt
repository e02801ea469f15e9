-- ===== src/Bot/Exits.antt =====
-- What a round that sells has done.
use coin_pilot.Base.{
  ◌≡◌, ◌≢◌, true, Option, none, some, get_or, arith, ◌∙◌, ◌++◌, ◌∷◌, [], Option-cases, inl, inr,
}
use coin_pilot.Base.Dict.{lookup}
use coin_pilot.Base.Result.{ok, Result-cases}
use coin_pilot.Number.{Number, Convert, ◌⊕◌, ◌⊗◌}
use coin_pilot.Number.Order.{IsOrdered, le_refl}
use coin_pilot.Store.{Db, Position, sell}
use coin_pilot.Strategy.Exit.{ExitReason, Exit, check_exit_signal}
use coin_pilot.Risk.{state_of, after_sell, update_after_trade, after_trade, get_daily_state}
use coin_pilot.Risk.Day.{state_of-update_after_trade}
use coin_pilot.Executor.{execute_order, history_of, get_balance}
use coin_pilot.Executor.Effects.{with_account}
use coin_pilot.Executor.Filled.{execute_order-Filled}
use coin_pilot.Redis.{Redis}
use coin_pilot.Bot.{
  BotConfig, Round, sold, price, profit, position_info, sell_order, exit_round, entry_round,
  try_buy, place_buy, symbol_round,
}

module _ {D F S : Type 0} ⦃d : Number D⦄ ⦃f : Number F⦄ ⦃c : Convert D F⦄ (r : Redis S)
    (cfg : BotConfig D F) (x : Round D F) where
  -- The position `p` is sold for a reason that the strategy gave.
  pub record Closed (p : Position D) (reason : ExitReason) (db db' : Db D) : Type 0 where
    pub exit : Exit F
    pub signal :
        check_exit_signal cfg.regimes x.indicators.regime
          (some x.close)
          x.indicators.rsi
          (position_info cfg x p)
          x.env.now
        ≡ ok exit
    pub given : exit.reason ≡ some reason
    pub gone : lookup x.symbol db'.positions ≡ none
    pub paid : db'.account ≡ some (get_or db.account cfg.default_balance ⊕ price cfg x ⊗ p.quantity)
    pub recorded :
        db'.trading_history ≡ db.trading_history ++ history_of (sell_order cfg x p exit reason) ∷ []
    pub day :
        state_of db' x.env.today
        ≡ after_sell cfg.risk x.env.now (profit cfg x p) (state_of db x.env.today)

  update-others :
      (pnl : D) (db : Db D)
      → ((update_after_trade cfg.risk x.env pnl sell db).positions ≡ db.positions)
        × ((update_after_trade cfg.risk x.env pnl sell db).account ≡ db.account)
        × ((update_after_trade cfg.risk x.env pnl sell db).trading_history ≡ db.trading_history)
  unfolding update_after_trade get_daily_state
  update-others pnl db = ground arith

  day-after :
      (pnl : D) (db db₁ : Db D)
      → db₁.daily_risk_state ≡ db.daily_risk_state
      → state_of (update_after_trade cfg.risk x.env pnl sell db₁) x.env.today
        ≡ after_sell cfg.risk x.env.now pnl (state_of db x.env.today)
  unfolding after_trade
  day-after pnl db db₁ e =
      ground (arith, state_of-update_after_trade cfg.risk x.env pnl sell db₁ x.env.today)

  sale-Closed :
      IsOrdered D
      → (p : Position D) (reason : ExitReason) (e : Exit F) (db : Db D)
      → lookup x.symbol db.positions ≡ some p
      → check_exit_signal cfg.regimes x.indicators.regime
          (some x.close)
          x.indicators.rsi
          (position_info cfg x p)
          x.env.now
        ≡ ok e
      → e.reason ≡ some reason
      → (execute_order (sell_order cfg x p e reason) db).0 ≡ true
      → Closed p reason db (
          update_after_trade cfg.risk x.env
            (profit cfg x p)
            sell
            (execute_order (sell_order cfg x p e reason) db).1)
  sale-Closed or p reason e db old signal given filled =
      let o = sell_order cfg x p e reason in
      let db₁ = (execute_order o db).1 in
      let done = execute_order-Filled o db filled in
      let (positions, account, history) = update-others (profit cfg x p) db₁ in
      record {
        exit = e;
        signal = signal;
        given = given;
        gone = ground (
          arith,
          positions,
          done.position,
          old,
          or.eq-eq-le p.quantity p.quantity,
          le_refl or p.quantity,
        );
        paid = account ∙ done.account;
        recorded = history ∙ done.history;
        day = day-after (profit cfg x p) db db₁ done.daily;
      }

  exit_round-Closed :
      IsOrdered D
      → (p : Position D) (reason : ExitReason) (db : Db D) (s : Option S)
      → lookup x.symbol db.positions ≡ some p
      → (exit_round r cfg x p (db, s)).0 ≡ sold reason
      → Closed p reason db (exit_round r cfg x p (db, s)).1.0
  unfolding exit_round
  exit_round-Closed or p reason db s old h =
      elim (Result-cases (
        check_exit_signal cfg.regimes x.indicators.regime (some x.close) x.indicators.rsi
          (position_info cfg x p) x.env.now)) [
            | inl (why, raised) ↦ ground (arith, raised)
            | inr (e, signal) ↦ elim (Option-cases e.reason) [
              | inl stays ↦ ground (arith, signal, stays)
              | inr (given, is_given) ↦
                  ground (arith, signal, is_given, sale-Closed or p given e db old signal is_given)
            ]
          ]

  try_buy-ne :
      (reason : ExitReason) (b : D) (db : Db D) (s : Option S)
      → (try_buy r cfg x b (db, s)).0 ≢ sold reason
  unfolding try_buy place_buy
  try_buy-ne reason b db s h = ground arith

  entry_round-ne :
      (reason : ExitReason) (db : Db D) (s : Option S)
      → (entry_round r cfg x (db, s)).0 ≢ sold reason
  unfolding entry_round get_balance
  entry_round-ne reason db s h = ground (
    arith,
    try_buy-ne reason (get_or db.account cfg.default_balance) (with_account cfg.default_balance db)
        s,
  )

  -- A round that sells had a position of the symbol, and the strategy gave the reason; after it
  -- the position is gone, the account is credited with the price of the whole quantity, one line of history is added, and the state of the day is that after a sale
  -- with the profit over the average price.
  pub symbol_round-Closed :
      IsOrdered D
      → (reason : ExitReason) (db : Db D) (s : Option S)
      → (symbol_round r cfg x (db, s)).0 ≡ sold reason
      → (p : Position D) × (lookup x.symbol db.positions ≡ some p)
        × Closed p reason db (symbol_round r cfg x (db, s)).1.0
  unfolding symbol_round
  symbol_round-Closed or reason db s h = elim (Option-cases (lookup x.symbol db.positions)) [
    | inl new ↦ ground (arith, new, entry_round-ne reason db s)
    | inr (p, old) ↦ (p, old, ground (arith, old, exit_round-Closed or p reason db s old))
  ]
