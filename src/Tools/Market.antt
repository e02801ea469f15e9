-- ===== src/Tools/Market.antt =====
-- src/agents/tools/market_outlook_tool.py. Rows come from the queries; `none` is NULL.
use mathlib.Core.List.{reverse}
use coin_pilot.Base.{
  ℕ, ◌+◌, Option, none, some, List, [], ◌∷◌, map, length, last_n, get_or, leb, ltb, if◌then◌else◌,
}
use coin_pilot.Base.Result.{Result, ok, ◌>>=◌, or_raise, zero_division}
use coin_pilot.Base.Text.{Text, codes}
use coin_pilot.Number.{Number, whole, ◌⊕◌, ◌⊖◌, ◌⊗◌, ◌⊘◌, ◌≺◌, ◌≈◌}
use coin_pilot.Number.Format.{Format, Stats}
use coin_pilot.Tools.News.{NewsLevel, build_news_readable_summary}

-- The last rows of regime_history, of news_risk_scores and of news_summaries. Where the query of
-- the news fails, the rows are missing.
pub record RegimeRow {ℓ} (F : Type ℓ) : Type ℓ where
  pub regime : Text
  pub diff_pct : Option F

pub record NewsRow {ℓ} (F : Type ℓ) : Type ℓ where
  pub risk_score : Option F
  pub risk_level : Option NewsLevel
  pub drivers : List Text

pub record Outlook {ℓ} (F : Type ℓ) : Type ℓ where
  pub current_price : F
  pub rsi14 : Option F
  pub ma20 : Option F
  pub ma50 : Option F
  pub ma200 : Option F
  pub momentum_1h_pct : Option F
  pub volatility_pct : Option F
  pub regime : Text
  pub regime_diff_pct : F
  pub trend_signal : Text
  pub news_risk_score : Option F
  pub news_risk_level : Option NewsLevel
  pub news_summary : Option Text

-- The answer of a tool: a message where it has no data.
pub data Answer {ℓ} (A : Type ℓ) : Type ℓ where
  no_data : Text → Answer A
  found : A → Answer A

-- `dropna`
abbrev pub present {ℓ} : {A : Type ℓ} → List (Option A) → List A
present [] = []
present (none ∷ xs) = present xs
present (some x ∷ xs) = x ∷ present xs

-- The last element, or another.
abbrev last_or {ℓ} : {A : Type ℓ} → A → List A → A
last_or x [] = x
last_or x (y ∷ ys) = last_or y ys

abbrev first_of {ℓ} : {A : Type ℓ} → List A → Option A
first_of [] = none
first_of (x ∷ xs) = some x

-- A field of the news row, which may be missing.
abbrev news_field {ℓ κ} :
    {F : Type ℓ} {A : Type κ} → (NewsRow F → Option A) → Option (NewsRow F) → Option A
news_field field none = none
news_field field (some row) = field row

module _ {ℓ} {F : Type ℓ} ⦃n : Number F⦄ where
  -- `diff()` without its first value.
  abbrev pub differences : List F → List F
  differences [] = []
  differences (x ∷ []) = []
  differences (x ∷ y ∷ xs) = (y ⊖ x) ∷ differences (y ∷ xs)

  abbrev gains : List F → List F
  gains = map (λ d. if whole 0 ≺ d then d else whole 0)

  abbrev losses : List F → List F
  losses = map (λ d. if d ≺ whole 0 then n.neg d else n.neg (whole 0))

  module _ ⦃stats : Stats F⦄ where
    unfoldable pub compute_rsi : List F → ℕ → Result (Option F)
    compute_rsi prices window = do
      let delta = last_n window (differences prices)
      let avg_gain = stats.mean (gains delta)
      let avg_loss = stats.mean (losses delta)
      if ltb (length prices) (window + 1)
          then ok none
          else if avg_loss ≈ whole 0
          then ok (some (whole 100))
          else (do
            rs ← or_raise (avg_gain ⊘ avg_loss) zero_division
            part ← or_raise (whole 100 ⊘ (whole 1 ⊕ rs)) zero_division
            ok (some (whole 100 ⊖ part)))

    -- `close.tail(k).mean()`, if there are as many.
    abbrev moving_average : ℕ → List F → Option F
    moving_average k close =
        if leb k (length close) then some (stats.mean (last_n k close)) else none

    abbrev volatility : List F → Option F
    volatility close =
        let returns = stats.pct_change close in
        if leb 30 (length returns)
        then some (stats.std (last_n 60 returns) ⊗ stats.sqrt_60 ⊗ whole 100)
        else none

    -- Against the close of 60 rows from the end.
    abbrev momentum_from : F → Option F → Result (Option F)
    momentum_from current none = ok none
    momentum_from current (some past) =
        if whole 0 ≺ past
        then (do
          change ← or_raise ((current ⊖ past) ⊘ past) zero_division
          ok (some (change ⊗ whole 100)))
        else ok none

    unfoldable pub momentum_1h : F → List F → Result (Option F)
    momentum_1h current close =
        if leb 60 (length close)
        then momentum_from current (first_of (last_n 60 close))
        else ok none

    abbrev trend : F → Option F → Text
    trend current none = codes "단기 추세 판단 데이터 부족"
    trend current (some ma20) = if ma20 ≺ current then codes "MA20 상단 유지" else codes "MA20 하단 위치"

    module _ ⦃f : Format F⦄ where
      abbrev outlook_of :
          F → List F → Option (RegimeRow F) → Option (NewsRow F) → Option Text → Result (Outlook F)
      outlook_of current close regime_row news_row summary = do
        rsi ← compute_rsi close 14
        momentum ← momentum_1h current close
        let score = news_field (λ row. row.risk_score) news_row
        let level = news_field (λ row. row.risk_level) news_row
        let drivers = get_or (news_field (λ row. some row.drivers) news_row) []
        ok (record {
          current_price = current;
          rsi14 = rsi;
          ma20 = moving_average 20 close;
          ma50 = moving_average 50 close;
          ma200 = moving_average 200 close;
          momentum_1h_pct = momentum;
          volatility_pct = volatility close;
          regime = elim regime_row [ none ↦ codes "UNKNOWN" | some row ↦ row.regime ];
          regime_diff_pct = elim regime_row [
            | none ↦ whole 0
            | some row ↦ get_or row.diff_pct (whole 0)
          ];
          trend_signal = trend current (moving_average 20 close);
          news_risk_score = score;
          news_risk_level = level;
          news_summary = build_news_readable_summary level score drivers summary;
        })

      abbrev outlook_on :
          List F
          → Option (RegimeRow F)
          → Option (NewsRow F)
          → Option Text
          → Result (Answer (Outlook F))
      outlook_on [] regime_row news_row summary = ok (no_data (codes "가격 데이터가 비어 있습니다."))
      outlook_on (x ∷ xs) regime_row news_row summary = do
        o ← outlook_of (last_or x xs) (x ∷ xs) regime_row news_row summary
        ok (found o)

      -- The closes, the newest first.
      unfoldable pub run_market_outlook_tool :
          List (Option F)
          → Option (RegimeRow F)
          → Option (NewsRow F)
          → Option Text
          → Result (Answer (Outlook F))
      unfolding compute_rsi momentum_1h build_news_readable_summary
      run_market_outlook_tool [] regime_row news_row summary =
          ok (no_data (codes "시장 데이터가 부족해 분석할 수 없습니다."))
      run_market_outlook_tool (row ∷ rows) regime_row news_row summary =
          outlook_on (reverse (present (row ∷ rows))) regime_row news_row summary
