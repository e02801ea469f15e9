-- ===== src/Tools/SellTiming.antt =====
-- src/agents/tools/sell_timing_tool.py. Rows come from the queries; `none` is NULL. A time is a
-- number of microseconds since the epoch.
use mathlib.Core.List.{reverse}
use coin_pilot.Base.{
  ℕ, ◌-◌, Bool, true, false, ◌&&◌, ◌||◌, Option, none, some, List, [], ◌∷◌, ◌++◌, map, length,
  get_or, ltb, if◌then◌else◌,
}
use coin_pilot.Base.Result.{Result, ok, ◌>>=◌, or_raise, zero_division}
use coin_pilot.Base.Text.{Text, codes}
use coin_pilot.Number.{Number, lit, whole, ◌⊕◌, ◌⊖◌, ◌⊗◌, ◌⊘◌, ◌≺◌, ◌≼◌}
use coin_pilot.Number.Format.{Format, Stats}
use coin_pilot.Strategy.Config.{Regime, ExitConfig, Regimes}
use coin_pilot.Strategy.Exit.{get_adjusted_exit_config}
use coin_pilot.Tools.Market.{Answer, no_data, found, compute_rsi}

pub data Advice : Type 0 where
  lacks_data sell_consider prepare_take_profit stop_loss_alert hold : Advice

pub data Signal (F : Type 0) : Type 0 where
  stop_loss_reached : F → F → Signal F
  trailing_triggered : F → F → Signal F
  take_profit_reached : F → F → Signal F
  rsi_overbought_met : F → F → F → Signal F
  time_limit_reached : F → ℕ → Signal F

pub record Thresholds (F : Type 0) : Type 0 where
  pub take_profit_pct : F
  pub stop_loss_pct : F
  pub trailing_activation_pct : F
  pub trailing_stop_price : F
  pub rsi_overbought : F
  pub time_limit_hours : ℕ

pub record Evaluation (F : Type 0) : Type 0 where
  pub recommendation : Advice
  pub signals : List (Signal F)
  pub pnl_pct : Option F
  pub hold_hours : Option F
  pub thresholds : Option (Thresholds F)

pub record HeldRow (F : Type 0) : Type 0 where
  pub symbol : Text
  pub quantity : Option F
  pub avg_price : Option F
  pub high_water_mark : Option F
  pub opened_at : Option ℕ
  pub entry_regime : Option Regime
  pub current_price : Option F

pub record Analyzed (F : Type 0) : Type 0 where
  pub symbol : Text
  pub entry_regime : Regime
  pub current_regime : Regime
  pub evaluation : Evaluation F

pub record SellTiming (F : Type 0) : Type 0 where
  pub positions : List (Analyzed F)
  pub total_positions : ℕ
  pub sell_consider_count : ℕ
  pub warning_count : ℕ

abbrev pub is_sale : Advice → Bool
is_sale Advice.sell_consider = true
is_sale _ = false

abbrev pub warns : Advice → Bool
warns Advice.sell_consider = true
warns Advice.stop_loss_alert = true
warns _ = false

abbrev pub signal_if : {F : Type 0} → Bool → Signal F → List (Signal F)
signal_if true s = s ∷ []
signal_if false s = []

abbrev pub count_if : {A : Type 0} → (A → Bool) → List A → ℕ
count_if p [] = 0
count_if p (x ∷ xs) = let rest = count_if p xs in if p x then ℕ.suc rest else rest

abbrev empty_text : Text → Bool
empty_text [] = true
empty_text (c ∷ s) = false

abbrev or_regime : Option Regime → Regime → Regime
or_regime none r = r
or_regime (some r) _ = r

abbrev unless_unknown : Regime → Regime → Regime
unless_unknown Regime.unknown r = r
unless_unknown Regime.bull r = Regime.bull
unless_unknown Regime.sideways r = Regime.sideways
unless_unknown Regime.bear r = Regime.bear

abbrev not_evaluated : {F : Type 0} → Evaluation F
not_evaluated = record {
  recommendation = Advice.lacks_data;
  signals = [];
  pnl_pct = none;
  hold_hours = none;
  thresholds = none;
}

module _ {F : Type 0} ⦃n : Number F⦄ where
  abbrev pub percent : F → F
  percent x = x ⊗ whole 100

  abbrev pub larger : F → F → F
  larger a b = if a ≺ b then b else a

  -- `high_water_mark if high_water_mark and high_water_mark > 0 else max(entry, current)`
  abbrev pub mark_or : Option F → F → F → F
  mark_or none entry current = larger entry current
  mark_or (some h) entry current = if whole 0 ≺ h then h else larger entry current

  -- `max(0.0, (now - opened_at) / 3600 s)`
  abbrev hours_held : ℕ → Option ℕ → Result (Option F)
  hours_held now none = ok none
  hours_held now (some opened) = do
    hours ← or_raise (lit (now - opened) 6 ⊘ whole 3600) zero_division
    ok (some hours)

  abbrev rsi_signal : Option F → F → Bool → F → List (Signal F)
  rsi_signal none limit gained pnl = []
  rsi_signal (some rsi) limit gained pnl =
      signal_if ((limit ≺ rsi) && gained) (rsi_overbought_met rsi limit pnl)

  abbrev time_signal : Option F → ℕ → List (Signal F)
  time_signal none limit = []
  time_signal (some hours) limit =
      signal_if (ltb 0 limit && (whole limit ≼ hours)) (time_limit_reached hours limit)

  -- What is recommended for signals, a profit, and the two targets.
  abbrev pub advise : List (Signal F) → F → F → F → Advice
  advise (s ∷ signals) pnl take_profit stop_loss = Advice.sell_consider
  advise [] pnl take_profit stop_loss =
      if take_profit ⊗ lit 7 1 ≼ pnl
      then Advice.prepare_take_profit
      else if pnl ≼ n.neg stop_loss ⊗ lit 7 1
      then Advice.stop_loss_alert
      else Advice.hold

  module _ ⦃f : Format F⦄ where
    -- The figures of a position that the tests look at.
    unfoldable pub signals_of :
        F → F → F → F → F → Option F → Option F → ExitConfig F → List (Signal F)
    signals_of current entry pnl hwm ratio rsi hours cfg = do
      let take_profit = percent cfg.take_profit_pct
      let stop_loss = percent cfg.stop_loss_pct
      let activation = percent cfg.trailing_stop_activation_pct
      let stop_price = hwm ⊗ (whole 1 ⊖ cfg.trailing_stop_pct)
      let active = (activation ≼ pnl) || (entry ⊗ (whole 1 ⊕ ratio) ≺ hwm)
      let gained = percent cfg.rsi_exit_min_profit_pct ≼ pnl
      signal_if (pnl ≼ n.neg stop_loss) (stop_loss_reached pnl stop_loss)
          ++ signal_if (active && (current ≼ stop_price)) (trailing_triggered current stop_price)
          ++ signal_if (take_profit ≼ pnl) (take_profit_reached pnl take_profit)
          ++ rsi_signal rsi (f.truncate cfg.rsi_overbought) gained pnl
          ++ time_signal hours cfg.time_limit_hours

    unfoldable pub evaluate_sell_signals :
        F → F → Option F → Option F → Option ℕ → ExitConfig F → ℕ → Result (Evaluation F)
    unfolding signals_of
    evaluate_sell_signals current entry high_water_mark rsi opened_at cfg now =
        if (entry ≼ whole 0) || (current ≼ whole 0) then ok not_evaluated else (do
          ratio ← or_raise ((current ⊖ entry) ⊘ entry) zero_division
          let pnl = percent ratio
          activation ← or_raise (percent cfg.trailing_stop_activation_pct ⊘ whole 100) zero_division
          let hwm = mark_or high_water_mark entry current
          hours ← hours_held now opened_at
          let signals = signals_of current entry pnl hwm activation rsi hours cfg
          let take_profit = percent cfg.take_profit_pct
          let stop_loss = percent cfg.stop_loss_pct
          ok (record {
            recommendation = advise signals pnl take_profit stop_loss;
            signals = signals;
            pnl_pct = some pnl;
            hold_hours = hours;
            thresholds = some record {
              take_profit_pct = take_profit;
              stop_loss_pct = stop_loss;
              trailing_activation_pct = percent cfg.trailing_stop_activation_pct;
              trailing_stop_price = hwm ⊗ (whole 1 ⊖ cfg.trailing_stop_pct);
              rsi_overbought = f.truncate cfg.rsi_overbought;
              time_limit_hours = cfg.time_limit_hours;
            };
          }))

-- The latest regime of a symbol, `unknown` where there is none, and its closes, newest first.
pub record Queries (F : Type 0) : Type 0 where
  pub latest_regime : Text → Regime
  pub latest_closes : Text → List (Option F)

module _ {F : Type 0} ⦃n : Number F⦄ ⦃stats : Stats F⦄ where
  -- `series[series > 0]`
  abbrev positive : List F → List F
  positive [] = []
  positive (x ∷ xs) = let rest = positive xs in if whole 0 ≺ x then x ∷ rest else rest

  unfoldable pub get_symbol_rsi14 : List (Option F) → Result (Option F)
  unfolding compute_rsi
  get_symbol_rsi14 rows =
      compute_rsi (positive (reverse (map (λ row. get_or row (whole 0)) rows))) 14

  -- A position that has no symbol, quantity or price is passed over.
  abbrev pub passed_over : HeldRow F → Bool
  passed_over row =
      empty_text row.symbol
      || (get_or row.quantity (whole 0) ≼ whole 0)
      || (get_or row.avg_price (whole 0) ≼ whole 0)
      || (get_or row.current_price (whole 0) ≼ whole 0)

  module _ ⦃f : Format F⦄ (regimes : Regimes F) (q : Queries F) (now : ℕ) where
    unfoldable pub analyze : HeldRow F → Result (Analyzed F)
    unfolding get_symbol_rsi14 get_adjusted_exit_config evaluate_sell_signals
    analyze row = do
      let latest = q.latest_regime row.symbol
      let entry = unless_unknown (or_regime row.entry_regime latest) Regime.sideways
      let current = unless_unknown latest entry
      rsi ← get_symbol_rsi14 (q.latest_closes row.symbol)
      let hwm = get_or row.high_water_mark (whole 0)
      evaluation ←
          evaluate_sell_signals (get_or row.current_price (whole 0))
            (get_or row.avg_price (whole 0)) (if whole 0 ≺ hwm then some hwm else none) rsi
            row.opened_at (get_adjusted_exit_config regimes (some entry) current) now
      ok (record {
        symbol = row.symbol;
        entry_regime = entry;
        current_regime = current;
        evaluation = evaluation;
      })

    unfoldable pub analyze_all : List (HeldRow F) → Result (List (Analyzed F))
    unfolding analyze
    analyze_all [] = ok []
    analyze_all (row ∷ rows) =
        let later = analyze_all rows in
        if passed_over row then later else (do a ← analyze row; rest ← later; ok (a ∷ rest))

    abbrev pub summarize : List (Analyzed F) → Answer (SellTiming F)
    summarize [] = no_data (codes "포지션 데이터는 있으나 분석 가능한 가격 데이터가 부족합니다.")
    summarize (a ∷ rest) = found (record {
      positions = a ∷ rest;
      total_positions = length (a ∷ rest);
      sell_consider_count = count_if (λ x. is_sale x.evaluation.recommendation) (a ∷ rest);
      warning_count = count_if (λ x. warns x.evaluation.recommendation) (a ∷ rest);
    })

    unfoldable pub run_sell_timing_tool : List (HeldRow F) → Result (Answer (SellTiming F))
    unfolding analyze_all
    run_sell_timing_tool [] = ok (no_data (codes "현재 보유 포지션이 없어 매도 타이밍 분석 대상이 없습니다."))
    run_sell_timing_tool (row ∷ rows) = do
      analyzed ← analyze_all (row ∷ rows)
      ok (summarize analyzed)
