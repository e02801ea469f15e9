-- ===== src/Tools/Portfolio.antt =====
-- src/agents/tools/portfolio_tool.py. Rows come from the queries; `none` is NULL.
use coin_pilot.Base.{ℕ, Option, none, some, List, [], ◌∷◌, foldl, map, get_or, if◌then◌else◌}
use coin_pilot.Base.Result.{Result, ok, ◌>>=◌, or_raise, zero_division}
use coin_pilot.Base.Text.{Text}
use coin_pilot.Number.{Number, whole, ◌⊕◌, ◌⊖◌, ◌⊗◌, ◌⊘◌, ◌≺◌}
use coin_pilot.Tools.Risk.{RiskRow, count_in}

pub record HoldingRow (F : Type 0) : Type 0 where
  pub symbol : Text
  pub quantity : Option F
  pub avg_price : Option F
  pub current_price : Option F

pub record Holding (F : Type 0) : Type 0 where
  pub symbol : Text
  pub valuation_krw : F
  pub unrealized_pnl_krw : F
  pub unrealized_pnl_pct : Option F

pub record Portfolio (F : Type 0) : Type 0 where
  pub cash_krw : F
  pub holdings_value_krw : F
  pub total_valuation_krw : F
  pub holdings : List (Holding F)
  pub buy_count : ℕ
  pub trade_count : ℕ
  pub consecutive_losses : ℕ

module _ {F : Type 0} ⦃n : Number F⦄ where
  abbrev pnl_pct : F → F → Result (Option F)
  pnl_pct pnl invested =
      if whole 0 ≺ invested
      then (do q ← or_raise (pnl ⊘ invested) zero_division; ok (some (q ⊗ whole 100)))
      else ok none

  unfoldable pub holding_of : HoldingRow F → Result (Holding F)
  holding_of row = do
    let qty = get_or row.quantity (whole 0)
    let cur = get_or row.current_price (whole 0)
    let invested = qty ⊗ get_or row.avg_price (whole 0)
    let valuation = if whole 0 ≺ cur then qty ⊗ cur else whole 0
    pct ← pnl_pct (valuation ⊖ invested) invested
    ok (record {
      symbol = row.symbol;
      valuation_krw = valuation;
      unrealized_pnl_krw = valuation ⊖ invested;
      unrealized_pnl_pct = pct;
    })

  unfoldable pub holdings_of : List (HoldingRow F) → Result (List (Holding F))
  unfolding holding_of
  holdings_of [] = ok []
  holdings_of (row ∷ rows) = do h ← holding_of row; rest ← holdings_of rows; ok (h ∷ rest)

  unfoldable pub run_portfolio_tool :
      Option F → Option (RiskRow F) → List (HoldingRow F) → Result (Portfolio F)
  unfolding holdings_of
  run_portfolio_tool balance risk_row rows = do
    holdings ← holdings_of rows
    let cash = get_or balance (whole 0)
    let value = foldl ◌⊕◌ (whole 0) (map (λ h. h.valuation_krw) holdings)
    ok (record {
      cash_krw = cash;
      holdings_value_krw = value;
      total_valuation_krw = cash ⊕ value;
      holdings = holdings;
      buy_count = count_in (λ row. row.buy_count) risk_row;
      trade_count = count_in (λ row. row.trade_count) risk_row;
      consecutive_losses = count_in (λ row. row.consecutive_losses) risk_row;
    })
