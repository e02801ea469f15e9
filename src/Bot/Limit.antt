-- ===== src/Bot/Limit.antt =====
-- The daily limit of buys, and the other symbols, through any rounds.
use coin_pilot.Base.{
  ℕ, ◌+◌, ◌≤◌, ◌<◌, ◌≡◌, false, Option, none, some, List, [], ◌∷◌, ◌==◌, get_or, eq_of_test, arith,
  Option-cases, inl, inr,
}
use coin_pilot.Base.Dict.{lookup}
use coin_pilot.Base.Result.{Result-cases}
use coin_pilot.Number.{Number, Convert, ◌⊘◌, whole}
use coin_pilot.Store.{Db, Position, Side, buy, sell}
use coin_pilot.Strategy.Exit.{check_exit_signal}
use coin_pilot.Risk.{
  state_of, after_trade, update_after_trade, check_order_validity, get_reference_equity,
}
use coin_pilot.Risk.Approval.{check_order_validity-Approved}
use coin_pilot.Risk.Day.{check-HaltOnly, state_of-update_after_trade}
use coin_pilot.Executor.{Order, execute_order, execute_buy, execute_sell, order_body, get_balance}
use coin_pilot.Executor.Effects.{with_account}
use coin_pilot.Redis.{Redis}
use coin_pilot.Bot.{
  BotConfig, Round, caps, invest_amount, buy_order, sell_order, env_after, price, profit,
  position_info, place_buy, try_buy, entry_round, exit_round, symbol_round,
}

-- An order writes no row of a day, however it ends.
order_daily :
    {D : Type 0} ⦃d : Number D⦄ (o : Order D) (db : Db D)
    → (execute_order o db).1.daily_risk_state ≡ db.daily_risk_state
unfolding execute_order order_body execute_buy execute_sell
order_daily o db = ground arith

module _ {D F S : Type 0} ⦃d : Number D⦄ ⦃f : Number F⦄ ⦃c : Convert D F⦄ (r : Redis S)
    (cfg : BotConfig D F) (x : Round D F) where
  abbrev buys_of : Db D → ℕ
  buys_of db = (state_of db x.env.today).buy_count

  trade_buys :
      (pnl : D) (side : Side) (db : Db D) (day : ℕ)
      → ((state_of (update_after_trade cfg.risk x.env pnl sell db) day).buy_count
          ≡ (state_of db day).buy_count)
        × ((state_of (update_after_trade cfg.risk x.env pnl buy db) day).buy_count
            ≤ (state_of db day).buy_count + 1)
        × ((x.env.today == day) ≡ false
            → (state_of (update_after_trade cfg.risk x.env pnl buy db) day).buy_count
              ≡ (state_of db day).buy_count)
  unfolding after_trade
  trade_buys pnl side db day = ground (
    arith,
    state_of-update_after_trade cfg.risk x.env pnl sell db day,
    state_of-update_after_trade cfg.risk x.env pnl buy db day,
  )

  abbrev pub Bounded : ℕ → Db D → Type 0
  Bounded day db = (state_of db day).buy_count ≤ cfg.risk.max_daily_trades

  place_buy-Bounded :
      (q : D) (db : Db D) (s : Option S) (day : ℕ)
      → buys_of db < cfg.risk.max_daily_trades
      → Bounded day db
      → Bounded day (place_buy r cfg x q (db, s)).1.0
  unfolding place_buy
  place_buy-Bounded q db s day free h =
      let o = buy_order cfg x q in
      let db₁ = (execute_order o db).1 in
      ground (arith, order_daily o db, eq_of_test x.env.today day, trade_buys (whole 0) buy db₁ day)

  -- The check lets an amount through only where a buy is free, and changes no count.
  check-free :
      (cached : Option D) (amount : D) (db : Db D)
      → (check_order_validity cfg.risk (env_after cfg x cached) x.symbol amount db).rejection ≡ none
      → buys_of (check_order_validity cfg.risk (env_after cfg x cached) x.symbol amount db).db
        < cfg.risk.max_daily_trades
  check-free cached amount db e =
      let env = env_after cfg x cached in
      let a = (check_order_validity-Approved cfg.risk env x.symbol amount db).0 e in
      ground (arith, a.limits.trades, check-HaltOnly cfg.risk env x.symbol amount db x.env.today)

  try_buy-Bounded :
      (b : D) (db : Db D) (s : Option S) (day : ℕ)
      → Bounded day db
      → Bounded day (try_buy r cfg x b (db, s)).1.0
  unfolding try_buy
  try_buy-Bounded b db s day h =
      let (reference, cached) = get_reference_equity x.env db in
      let amount = invest_amount cfg x (caps cfg x b reference db) in
      let env = env_after cfg x cached in
      let checked = check_order_validity cfg.risk env x.symbol amount db in
      let kept = check-HaltOnly cfg.risk env x.symbol amount db day in
      elim (Option-cases checked.rejection) [
        | inr (why, rejected) ↦ ground (arith, rejected, kept)
        | inl passed ↦ elim (Option-cases (amount ⊘ price cfg x)) [
          | inl by_zero ↦ ground (arith, passed, by_zero, kept)
          | inr (q, quotient) ↦ ground (
            arith,
            passed,
            quotient,
            kept,
            check-free cached amount db passed,
            place_buy-Bounded q checked.db s day,
          )
        ]
      ]

  entry_round-Bounded :
      (db : Db D) (s : Option S) (day : ℕ)
      → Bounded day db
      → Bounded day (entry_round r cfg x (db, s)).1.0
  unfolding entry_round get_balance
  entry_round-Bounded db s day h = ground (
    arith,
    try_buy-Bounded (get_or db.account cfg.default_balance) (with_account cfg.default_balance db) s
        day,
  )

  exit_round-Bounded :
      (p : Position D) (db : Db D) (s : Option S) (day : ℕ)
      → Bounded day db
      → Bounded day (exit_round r cfg x p (db, s)).1.0
  unfolding exit_round
  exit_round-Bounded p db s day h =
      elim (Result-cases (
        check_exit_signal cfg.regimes x.indicators.regime (some x.close) x.indicators.rsi
          (position_info cfg x p) x.env.now)) [
            | inl (why, raised) ↦ ground (arith, raised)
            | inr (e, signal) ↦ elim (Option-cases e.reason) [
              | inl stays ↦ ground (arith, signal, stays)
              | inr (reason, given) ↦
                  let o = sell_order cfg x p e reason in
                  ground (
                    arith,
                    signal,
                    given,
                    order_daily o db,
                    trade_buys (profit cfg x p) sell (execute_order o db).1 day,
                  )
            ]
          ]

  symbol_round-Bounded :
      (db : Db D) (s : Option S) (day : ℕ)
      → Bounded day db
      → Bounded day (symbol_round r cfg x (db, s)).1.0
  unfolding symbol_round
  symbol_round-Bounded db s day h = elim (Option-cases (lookup x.symbol db.positions)) [
    | inl new ↦ ground (arith, new, entry_round-Bounded db s day h)
    | inr (p, old) ↦ ground (arith, old, exit_round-Bounded p db s day h)
  ]

module _ {D F S : Type 0} ⦃d : Number D⦄ ⦃f : Number F⦄ ⦃c : Convert D F⦄ (r : Redis S)
    (cfg : BotConfig D F) where
  -- The rounds of the loop, one after the other, whatever each one is told.
  pub rounds : List (Round D F) → Db D × Option S → Db D × Option S
  rounds [] st = st
  rounds (x ∷ xs) st = rounds xs (symbol_round r cfg x st).1

  -- Through any rounds, of any symbols and days, and however each of them ends, no day gets more
  -- buys than the setting allows, if none had more at the start.
  pub rounds-Bounded :
      (xs : List (Round D F)) (db : Db D) (s : Option S) (day : ℕ)
      → (state_of db day).buy_count ≤ cfg.risk.max_daily_trades
      → (state_of (rounds xs (db, s)).0 day).buy_count ≤ cfg.risk.max_daily_trades
  unfolding rounds
  rounds-Bounded [] db s day h = h
  rounds-Bounded (x ∷ xs) db s day h =
      let (db', s') = (symbol_round r cfg x (db, s)).1 in
      rounds-Bounded xs db' s' day (symbol_round-Bounded r cfg x db s day h)
