-- ===== src/Tools/Review.antt =====
-- src/agents/tools/strategy_review_tool.py. Rows come from the query, oldest first; a time is a
-- number of microseconds.
pub mod Loop
pub mod Streak
use coin_pilot.Base.{
  ℕ, suc, max, ◌-◌, Bool, true, false, not, ◌&&◌, Option, none, some, List, [], ◌∷◌, ◌++◌, foldl,
  map, length, take, get_or, leb, ltb, if◌then◌else◌, ◌||◌, String,
}
use coin_pilot.Base.Result.{Result, ok, raise, ◌>>=◌, or_raise, zero_division}
use coin_pilot.Base.Text.{Text, codes, text_eq, show}
use coin_pilot.Base.Ordered.{find, assign}
use coin_pilot.Number.{Number, lit, whole, ◌⊕◌, ◌⊖◌, ◌⊗◌, ◌⊘◌, ◌≺◌, ◌≼◌}
use coin_pilot.Number.Format.{Format}
use coin_pilot.Store.{Side}
use coin_pilot.Tools.News.{sorted_set}
use coin_pilot.Tools.SellTiming.{count_if}
use coin_pilot.Tools.Review.Loop.{OpenLot, Match, start_match, match_lots}

-- A filled order; `none` for a side that is neither BUY nor SELL.
pub record TradeRow (F : Type 0) : Type 0 where
  pub symbol : Text
  pub side : Option Side
  pub quantity : Option F
  pub price : Option F
  pub ts : Option ℕ
  pub regime : Option Text
  pub exit_reason : Option Text

pub record SellResult (F : Type 0) : Type 0 where
  pub pnl_krw : F
  pub pnl_pct : F
  pub hold_hours : Option F
  pub regime : Text
  pub exit_reason : Text

-- What the loop over the rows builds: `buy_lots`, `sell_results`, and the symbols in `notes`.
pub record Ledger (F : Type 0) : Type 0 where
  pub buy_lots : List (Text × List (OpenLot F))
  pub sell_results : List (SellResult F)
  pub notes : List Text

pub record GroupStat (F : Type 0) : Type 0 where
  pub count : ℕ
  pub avg_pnl_pct : F
  pub avg_hold_hours : F

pub record ReasonStat (F : Type 0) : Type 0 where
  pub count : ℕ
  pub avg_pnl_pct : F

pub record Review (F : Type 0) : Type 0 where
  pub days : ℕ
  pub sell_count : ℕ
  pub win_count : ℕ
  pub loss_count : ℕ
  pub win_rate : F
  pub total_realized_pnl_krw : F
  pub avg_pnl_pct : F
  pub max_loss_streak : ℕ
  pub by_regime : List (Text × GroupStat F)
  pub by_exit_reason : List (Text × ReasonStat F)
  pub strengths : List Text
  pub weaknesses : List Text
  pub improvements : List Text
  pub notes : List Text

pub data ReviewAnswer (F : Type 0) : Type 0 where
  no_rows : ReviewAnswer F
  no_realized : List Text → ReviewAnswer F
  reviewed : Review F → ReviewAnswer F

abbrev pub no_ledger : {F : Type 0} → Ledger F
no_ledger = record { buy_lots = []; sell_results = []; notes = [] }

abbrev unknown : Text
unknown = codes "UNKNOWN"

-- `text or "UNKNOWN"`
abbrev label_or_unknown : Option Text → Text
label_or_unknown none = unknown
label_or_unknown (some []) = unknown
label_or_unknown (some (c ∷ s)) = c ∷ s

abbrev no_text : Text → Bool
no_text [] = true
no_text (c ∷ s) = false

abbrev no_results : {A : Type 0} → List A → Bool
no_results [] = true
no_results (x ∷ xs) = false

-- The running streak and the longest so far, after a sale that lost or did not.
abbrev pub streak_step : ℕ × ℕ → Bool → ℕ × ℕ
streak_step (longest, current) true = (max longest (suc current), suc current)
streak_step (longest, current) false = (longest, 0)

unfoldable pub max_streak : List Bool → ℕ
max_streak lost = (foldl streak_step (0, 0) lost).0

-- Three improvements: the fixed ones fill up.
abbrev add_if_short : Text → List Text → List Text
add_if_short text items = if ltb (length items) 3 then items ++ text ∷ [] else items

unfoldable pub three_improvements : List Text → List Text
three_improvements items = do
  let one = add_if_short (codes "RSI/거래량 조건을 만족해도 변동성 급등 구간에서는 진입을 한 단계 보류하세요.") items
  let two = add_if_short (codes "승률보다 손익비를 우선 관리하도록 STOP_LOSS/TAKE_PROFIT 비율을 주간 점검하세요.") one
  take 3 (add_if_short (codes "동일 심볼 재진입 간격을 늘려 단기 노이즈 진입을 줄이세요.") two)

abbrev text_if : Bool → String → List Text
text_if true s = codes s ∷ []
text_if false s = []

module _ {F : Type 0} ⦃n : Number F⦄ where
  abbrev sum : List F → F
  sum = foldl ◌⊕◌ (whole 0)

  abbrev wins : SellResult F → Bool
  wins r = whole 0 ≺ r.pnl_krw

  abbrev pub loses : SellResult F → Bool
  loses r = r.pnl_krw ≺ whole 0

  abbrev lots_of : Text → Ledger F → List (OpenLot F)
  lots_of symbol ledger = get_or (find text_eq symbol ledger.buy_lots) []

  -- What a sale that has matched lots adds.
  abbrev result_of : TradeRow F → Match F → Result (SellResult F)
  result_of row m = do
    pct ← or_raise (m.weighted_pct ⊘ m.matched) zero_division
    hours ← or_raise (m.weighted_hours ⊘ m.matched) zero_division
    ok (record {
      pnl_krw = m.pnl_krw;
      pnl_pct = pct;
      hold_hours = if whole 0 ≺ m.weighted_hours then some hours else none;
      regime = label_or_unknown row.regime;
      exit_reason = label_or_unknown row.exit_reason;
    })

  abbrev sell_matched : TradeRow F → Ledger F → Match F → Result (Ledger F)
  sell_matched row ledger m = do
    let lots = assign text_eq row.symbol m.lots ledger.buy_lots
    if m.matched ≼ whole 0
        then ok (record ledger { buy_lots = lots; notes = ledger.notes ++ row.symbol ∷ [] })
        else (do
          r ← result_of row m
          ok (record ledger { buy_lots = lots; sell_results = ledger.sell_results ++ r ∷ [] }))

  unfoldable pub add_row : Ledger F → TradeRow F → Result (Ledger F)
  unfolding find assign match_lots
  add_row ledger row = do
    let qty = get_or row.quantity (whole 0)
    let price = get_or row.price (whole 0)
    let lots = lots_of row.symbol ledger
    if no_text row.symbol || (qty ≼ whole 0) || (price ≼ whole 0)
        then ok ledger
        else elim row.side [
          | none ↦ ok ledger
          | some Side.buy ↦ ok (record ledger {
            buy_lots =
                assign text_eq row.symbol
                  (lots
                    ++ record { remaining_qty = qty; entry_price = price; opened_at = row.ts } ∷ [])
                  ledger.buy_lots;
          })
          | some Side.sell ↦
              sell_matched row ledger
                (match_lots (suc (length lots)) price row.ts (start_match qty lots))
        ]

  unfoldable pub add_rows : Ledger F → List (TradeRow F) → Result (Ledger F)
  unfolding add_row
  add_rows ledger [] = ok ledger
  add_rows ledger (row ∷ rows) = do next ← add_row ledger row; add_rows next rows

  abbrev group_stat : List (SellResult F) → Result (GroupStat F)
  group_stat bucket = do
    pct ← or_raise (sum (map (λ r. r.pnl_pct) bucket) ⊘ whole (length bucket)) zero_division
    hours ←
        or_raise (sum (map (λ r. get_or r.hold_hours (whole 0)) bucket) ⊘ whole (length bucket))
          zero_division
    ok (record { count = length bucket; avg_pnl_pct = pct; avg_hold_hours = hours })

  abbrev only : (SellResult F → Text) → Text → List (SellResult F) → List (SellResult F)
  only key name [] = []
  only key name (r ∷ rs) =
      let rest = only key name rs in if text_eq (key r) name then r ∷ rest else rest

  abbrev reason_stat : List (SellResult F) → Result (ReasonStat F)
  reason_stat bucket = do
    pct ← or_raise (sum (map (λ r. r.pnl_pct) bucket) ⊘ whole (length bucket)) zero_division
    ok (record { count = length bucket; avg_pnl_pct = pct })

  -- What is said of each name, and of the sales with that name.
  abbrev groups_of :
      {S : Type 0}
      → (List (SellResult F) → Result S)
      → (SellResult F → Text)
      → List (SellResult F)
      → List Text
      → Result (List (Text × S))
  groups_of stat_of key results [] = ok []
  groups_of stat_of key results (name ∷ names) = do
    stat ← stat_of (only key name results)
    rest ← groups_of stat_of key results names
    ok ((name, stat) ∷ rest)

  unfoldable pub group_by :
      {S : Type 0}
      → (List (SellResult F) → Result S)
      → (SellResult F → Text)
      → List (SellResult F)
      → Result (List (Text × S))
  group_by stat_of key results = groups_of stat_of key results (sorted_set (map key results))

  abbrev bear_loses : List (Text × GroupStat F) → Bool
  bear_loses groups = elim (find text_eq (codes "BEAR") groups) [
    | none ↦ false
    | some stat ↦ stat.avg_pnl_pct ≺ whole 0
  ]

  module _ ⦃f : Format F⦄ (days : ℕ) where
    unfoldable pub strengths_of : F → F → List Text
    strengths_of win_rate total =
        (if lit 55 2 ≼ win_rate
          then (codes "최근 승률이 " ++ f.fixed1 (win_rate ⊗ whole 100) ++ codes "%로 안정 구간입니다.") ∷ []
          else [])
        ++ (if whole 0 ≺ total
            then (codes "최근 "
                ++ show days
                ++ codes "일 누적 실현손익이 +"
                ++ f.comma0 total
                ++ codes " KRW 입니다.")
              ∷ []
            else [])

    unfoldable pub weaknesses_of : F → F → Bool → ℕ → List Text
    weaknesses_of win_rate total bear streak =
        (if lit 55 2 ≼ win_rate
          then []
          else (codes "최근 승률이 "
              ++ f.fixed1 (win_rate ⊗ whole 100)
              ++ codes "%로 낮아 진입 필터 재점검이 필요합니다.")
            ∷ [])
        ++ (if whole 0 ≺ total
            then []
            else (codes "최근 "
                ++ show days
                ++ codes "일 누적 실현손익이 "
                ++ f.comma0 total
                ++ codes " KRW 입니다.")
              ∷ [])
        ++ text_if bear "하락장(BEAR) 구간 평균 손익률이 음수입니다."
        ++ (if leb 3 streak then (codes "최대 연속 손실이 " ++ show streak ++ codes "회입니다.") ∷ [] else [])

    unfoldable pub review_of : List (SellResult F) → List Text → Result (Review F)
    unfolding group_by max_streak strengths_of weaknesses_of three_improvements find show
    review_of results notes = do
      let total = sum (map (λ r. r.pnl_krw) results)
      let win_count = count_if wins results
      let streak = max_streak (map loses results)
      win_rate ← or_raise (whole win_count ⊘ whole (length results)) zero_division
      regimes ← group_by group_stat (λ r. r.regime) results
      reasons ← group_by reason_stat (λ r. r.exit_reason) results
      avg ← or_raise (sum (map (λ r. r.pnl_pct) results) ⊘ whole (length results)) zero_division
      let bear = bear_loses regimes
      ok (record {
        days = days;
        sell_count = length results;
        win_count = win_count;
        loss_count = count_if loses results;
        win_rate = win_rate;
        total_realized_pnl_krw = total;
        avg_pnl_pct = avg;
        max_loss_streak = streak;
        by_regime = regimes;
        by_exit_reason = reasons;
        strengths = strengths_of win_rate total;
        weaknesses = weaknesses_of win_rate total bear streak;
        improvements = three_improvements (
            text_if bear "BEAR 레짐에서 포지션 비중/진입 횟수를 더 보수적으로 제한하세요."
            ++ text_if (leb 3 streak) "연속 손실 2회 이후엔 강제 쿨다운 시간을 늘려 과매매를 방지하세요.");
        notes = notes;
      })

    unfoldable pub run_strategy_review_tool : List (TradeRow F) → Result (ReviewAnswer F)
    unfolding add_rows review_of
    run_strategy_review_tool [] = ok no_rows
    run_strategy_review_tool (row ∷ rows) = do
      ledger ← add_rows no_ledger (row ∷ rows)
      if no_results ledger.sell_results
          then ok (no_realized ledger.notes)
          else (do review ← review_of ledger.sell_results ledger.notes; ok (reviewed review))
