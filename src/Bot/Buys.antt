-- ===== src/Bot/Buys.antt =====
-- What a round that buys has passed.
use coin_pilot.Base.{
  ◌≡◌, ◌≢◌, inl, inr, true, false, Option, none, some, get_or, arith, Option-cases, Bool-cases,
}
use coin_pilot.Base.Dict.{lookup}
use coin_pilot.Base.Result.{ok, Result-cases}
use coin_pilot.Number.{Number, Convert, ◌⊘◌, ◌≺◌, ◌≼◌, whole}
use coin_pilot.Number.Order.{IsOrdered, lt→le, not-lt→le, le_refl}
use coin_pilot.Store.{Db, Position}
use coin_pilot.Strategy.Entry.{check_entry_signal}
use coin_pilot.Strategy.Exit.{min_of, check_exit_signal}
use coin_pilot.Risk.{Checked, get_reference_equity, check_order_validity}
use coin_pilot.Executor.{execute_order, get_balance}
use coin_pilot.Executor.Effects.{with_account}
use coin_pilot.Executor.Filled.{Filled, execute_order-Filled}
use coin_pilot.Redis.{Redis}
use coin_pilot.Guardrails.{should_block_ai_call}
use coin_pilot.Prefilter.{should_run_ai_analysis}
use coin_pilot.Bot.{
  BotConfig, Round, bought, verdict, second, price, Caps, caps, invest_amount, buy_order, env_after,
  position_info, place_buy, try_buy, entry_round, exit_round, symbol_round,
}

module _ {D F S : Type 0} ⦃d : Number D⦄ ⦃f : Number F⦄ ⦃c : Convert D F⦄ (r : Redis S)
    (cfg : BotConfig D F) (x : Round D F) where
  -- The last gates, and the order that was filled behind them.
  pub record Placed (quantity : D) (db : Db D) (s : Option S) : Type 0 where
    pub positive : (whole 0 ≺ quantity) ≡ true
    pub worthy :
        should_run_ai_analysis x.indicators.regime x.features x.context_len
          (cfg.prefilter x.indicators.regime)
        ≡ none
    pub unblocked :
        should_block_ai_call r (second cfg x) s x.symbol (cfg.guard x.indicators.regime) ≡ none
    pub approved : verdict x.answer ≡ ok true
    pub filled :
        Filled (buy_order cfg x quantity) db (execute_order (buy_order cfg x quantity) db).1

  abbrev pub amount_in : Db D → D
  amount_in db =
      let balance = get_or db.account cfg.default_balance in
      invest_amount cfg x (caps cfg x balance (get_reference_equity x.env db).0 db)

  abbrev pub check_in_round : Db D → Checked D
  check_in_round db =
      check_order_validity cfg.risk (env_after cfg x (get_reference_equity x.env db).1) x.symbol
        (amount_in db) db

  pub record WithinCaps (amount : D) (k : Caps D) : Type 0 where
    pub positive : (amount ≼ whole 0) ≡ false
    pub target : (amount ≼ k.target) ≡ true
    pub cash : (amount ≼ k.cash) ≡ true
    pub exposure : (amount ≼ k.exposure) ≡ true

  -- Everything a buy has passed, in tables where the account is there.
  pub record Cleared (db : Db D) (s : Option S) : Type 0 where
    pub signal : check_entry_signal cfg.regimes x.indicators ≡ true
    pub within :
        WithinCaps
          (amount_in db)
          (caps cfg x (get_or db.account cfg.default_balance) (get_reference_equity x.env db).0 db)
    pub checked : (check_in_round db).rejection ≡ none
    pub quantity : D
    pub quotient : amount_in db ⊘ price cfg x ≡ some quantity
    pub placed : Placed quantity (check_in_round db).db s

  place_buy-Placed :
      (q : D) (db : Db D) (s : Option S)
      → (whole 0 ≺ q) ≡ true
      → (place_buy r cfg x q (db, s)).0 ≡ bought
      → Placed q db s
  unfolding place_buy
  place_buy-Placed q db s h e = ground (arith, execute_order-Filled (buy_order cfg x q) db)

  min_of-le : IsOrdered D → (a b : D) → ((min_of a b ≼ a) ≡ true) × ((min_of a b ≼ b) ≡ true)
  min_of-le o a b = ground (arith, lt→le o b a, not-lt→le o b a, le_refl o a, le_refl o b)

  invest_amount-WithinCaps :
      IsOrdered D
      → (k : Caps D) → (invest_amount cfg x k ≼ whole 0) ≡ false
      → WithinCaps (invest_amount cfg x k) k
  unfolding invest_amount
  invest_amount-WithinCaps o k h =
      let m = min_of k.target k.cash in
      let (first, cash) = min_of-le o k.target k.cash in
      let (rest, exposure) = min_of-le o m k.exposure in
      record {
        positive = h;
        target = o.le_trans (min_of m k.exposure) m k.target rest first;
        cash = o.le_trans (min_of m k.exposure) m k.cash rest cash;
        exposure = exposure;
      }

  try_buy-Cleared :
      IsOrdered D
      → (db : Db D) (s : Option S) → check_entry_signal cfg.regimes x.indicators ≡ true
      → (try_buy r cfg x (get_or db.account cfg.default_balance) (db, s)).0 ≡ bought
      → Cleared db s
  unfolding try_buy
  try_buy-Cleared o db s signal e =
      let (reference, cached) = get_reference_equity x.env db in
      let k = caps cfg x (get_or db.account cfg.default_balance) reference db in
      let checked = check_in_round db in
      elim (Bool-cases (amount_in db ≼ whole 0)) [
        | inl none_ ↦ ground (arith, none_)
        | inr some_ ↦ elim (Option-cases checked.rejection) [
          | inr (why, rejected) ↦ ground (arith, some_, rejected)
          | inl passed ↦ elim (Option-cases (amount_in db ⊘ price cfg x)) [
            | inl by_zero ↦ ground (arith, some_, passed, by_zero)
            | inr (q, quotient) ↦ elim (Bool-cases (whole 0 ≺ q)) [
              | inr zero_ ↦ ground (arith, some_, passed, quotient, zero_)
              | inl more ↦ record {
                signal = signal;
                within = invest_amount-WithinCaps o k some_;
                checked = passed;
                quantity = q;
                quotient = quotient;
                placed =
                    place_buy-Placed q checked.db s more
                      (ground (arith, some_, passed, quotient, more));
              }
            ]
          ]
        ]
      ]

  -- An exit buys nothing.
  exit_round-sells : (p : Position D) (st : Db D × Option S) → (exit_round r cfg x p st).0 ≢ bought
  unfolding exit_round
  exit_round-sells p st e = ground (
    arith,
    Result-cases (
        check_exit_signal cfg.regimes x.indicators.regime (some x.close) x.indicators.rsi
          (position_info cfg x p) x.env.now),
  )

  entry_round-Cleared :
      IsOrdered D
      → (db : Db D) (s : Option S) → (entry_round r cfg x (db, s)).0 ≡ bought
      → Cleared (with_account cfg.default_balance db) s
  unfolding entry_round get_balance
  entry_round-Cleared o db s e =
      ground (arith, try_buy-Cleared o (with_account cfg.default_balance db) s)

  -- For decimals in order, and in tables where a missing account is created first: a round buys
  -- only where the symbol has no position, the strategy gives the signal, the amount
  -- is positive and within the target, the cash and the exposure that is left, the risk manager
  -- lets that amount through, the filter and the guardrails let the AI agents be asked, and these
  -- approve; the order is then for the quantity that the amount buys, and is filled.
  pub symbol_round-Cleared :
      IsOrdered D
      → (db : Db D) (s : Option S) → (symbol_round r cfg x (db, s)).0 ≡ bought
      → (lookup x.symbol db.positions ≡ none) × Cleared (with_account cfg.default_balance db) s
  unfolding symbol_round
  symbol_round-Cleared o db s e = elim (Option-cases (lookup x.symbol db.positions)) [
    | inl new ↦ (new, ground (arith, new, entry_round-Cleared o db s))
    | inr (p, old) ↦ ground (arith, old, exit_round-sells p (db, s))
  ]
