-- ===== src/Chat/Nodes.antt =====
-- The nodes of src/agents/router.py that write an answer out of what the tables hold and the market does.
use coin_pilot.Base.{Option, none, some, List, [], ◌∷◌, ◌++◌, map, take, get_or, String}
use coin_pilot.Base.Text.{Text, codes, newline, join_lines, show}
use coin_pilot.Number.{Number, whole}
use coin_pilot.Number.Format.{Format}
use coin_pilot.Tools.Market.{Outlook, Answer, no_data, found}
use coin_pilot.Tools.Portfolio
use coin_pilot.Tools.Portfolio.{Portfolio}
use coin_pilot.Tools.History.{SellView, TradeHistory}
use coin_pilot.Chat.Footer.{safety_disclaimer}
use coin_pilot.Chat.Words.{news_text, format_krw}

-- A message and the disclaimer under it.
abbrev pub disclaimed : Text → Text
disclaimed message = message ++ newline ++ safety_disclaimer

-- `if value is not None: lines.append(...)`
abbrev if_some : {A : Type 0} → Option A → (A → Text) → List Text
if_some none line = []
if_some (some a) line = line a ∷ []

abbrev if_text : Option Text → List Text
if_text none = []
if_text (some []) = []
if_text (some (c ∷ s)) = (codes "- 뉴스 요약: " ++ c ∷ s) ∷ []

module _ {F : Type 0} ⦃n : Number F⦄ ⦃f : Format F⦄ where
  abbrev pct_text : Option F → Text
  pct_text none = codes "N/A"
  pct_text (some pct) = f.signed2 pct ++ codes "%"

  abbrev holding_lines : List (Portfolio.Holding F) → List Text
  holding_lines [] = codes "현재 보유 포지션이 없습니다." ∷ []
  holding_lines (h ∷ hs) =
      codes "보유 포지션 요약:"
      ∷ map
          (λ row.
            codes "- "
            ++ row.symbol
            ++ codes ": 평가 "
            ++ format_krw row.valuation_krw
            ++ codes ", 미실현 "
            ++ pct_text row.unrealized_pnl_pct)
          (take 5 (h ∷ hs))

  unfoldable pub portfolio_node : Portfolio F → Text
  unfolding format_krw show
  portfolio_node data_ = join_lines (
      (codes "총 평가액: " ++ format_krw data_.total_valuation_krw)
      ∷ (codes "현금 잔고: " ++ format_krw data_.cash_krw)
      ∷ (codes "보유 자산 평가액: " ++ format_krw data_.holdings_value_krw)
      ∷ (holding_lines data_.holdings
          ++ (codes "당일 리스크 상태: BUY "
              ++ show data_.buy_count
              ++ codes "회 / 총 "
              ++ show data_.trade_count
              ++ codes "회, 연속손실 "
              ++ show data_.consecutive_losses
              ++ codes "회")
            ∷ []))

  abbrev realized_text : Option (F × F) → Text
  realized_text none = codes "계산 불가(entry_avg_price 데이터 없음)"
  realized_text (some (krw, pct)) = format_krw krw ++ codes " (" ++ f.signed2 pct ++ codes "%)"

  abbrev entry_line : Option F → Text
  entry_line none = codes "- 추정 매수가: 데이터 없음"
  entry_line (some entry) = codes "- 추정 매수가: " ++ format_krw entry

  abbrev sell_lines : Option (SellView F) → List Text
  sell_lines none = codes "최근 SELL 체결이 없어 마지막 SELL 정보를 표시할 수 없습니다." ∷ []
  sell_lines (some v) =
      codes "마지막 SELL 상세:"
      ∷ (codes "- 시각(KST): " ++ v.row.filled_at_kst)
      ∷ (codes "- 심볼: " ++ v.row.symbol)
      ∷ (codes "- 매도가: " ++ format_krw (get_or v.row.price (whole 0)))
      ∷ (codes "- 수량: " ++ f.fixed8 (get_or v.row.quantity (whole 0)))
      ∷ entry_line v.row.entry_avg_price
      ∷ (codes "- 실현 손익: " ++ realized_text v.realized_pnl)
      ∷ (codes "- 레짐/청산사유: " ++ v.row.regime ++ codes " / " ++ v.row.exit_reason)
      ∷ []

  unfoldable pub trade_history_node : Answer (TradeHistory F) → Text
  unfolding format_krw show
  trade_history_node (no_data message) = disclaimed message
  trade_history_node (found data_) = join_lines (
      (codes "최근 체결 요약: 총 "
        ++ show data_.filled_count
        ++ codes "건, SELL "
        ++ show data_.sell_count
        ++ codes "건")
      ∷ (sell_lines data_.last_sell ++ safety_disclaimer ∷ []))

  abbrev news_lines : Outlook F → List Text
  news_lines o = elim o.news_risk_score [
    | none ↦ codes "- 뉴스 리스크 점수: 아직 수집/집계 데이터가 부족합니다." ∷ []
    | some score ↦
        (codes "- 뉴스 리스크: "
          ++ news_text o.news_risk_level
          ++ codes " ("
          ++ f.fixed1 score
          ++ codes ")")
        ∷ if_text o.news_summary
  ]

  unfoldable pub market_outlook_node : String → Answer (Outlook F) → Text
  unfolding format_krw
  market_outlook_node symbol (no_data message) = disclaimed message
  market_outlook_node symbol (found o) = join_lines (
      (codes symbol ++ codes " 시장 브리핑:")
      ∷ (codes "- 현재가: " ++ format_krw o.current_price)
      ∷ (codes "- 레짐: "
          ++ o.regime
          ++ codes " (MA50-MA200 이격도 "
          ++ f.signed2 o.regime_diff_pct
          ++ codes "%)")
      ∷ (codes "- 단기 추세: " ++ o.trend_signal)
      ∷ (if_some o.rsi14 (λ x. codes "- RSI(14): " ++ f.fixed1 x)
          ++ if_some o.momentum_1h_pct (λ x. codes "- 1시간 모멘텀: " ++ f.signed2 x ++ codes "%")
          ++ if_some o.volatility_pct (λ x. codes "- 단기 변동성(추정): " ++ f.fixed2 x ++ codes "%")
          ++ news_lines o
          ++ safety_disclaimer ∷ []))
