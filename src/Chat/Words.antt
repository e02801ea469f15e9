-- ===== src/Chat/Words.antt =====
-- How the nodes of src/agents/router.py write names, amounts and lists.
use coin_pilot.Base.{Option, none, some, List, [], ◌∷◌, ◌++◌}
use coin_pilot.Base.Text.{Text, codes}
use coin_pilot.Number.Format.{Format}
use coin_pilot.Strategy.Config.{Regime}
use coin_pilot.Tools.Risk.{RiskLevel}
use coin_pilot.Tools.News.{NewsLevel}
use coin_pilot.Tools.SellTiming.{
  Advice, Signal, stop_loss_reached, trailing_triggered, take_profit_reached, rsi_overbought_met,
  time_limit_reached,
}
use coin_pilot.Base.Text.{show}

abbrev pub regime_text : Regime → Text
regime_text Regime.bull = codes "BULL"
regime_text Regime.sideways = codes "SIDEWAYS"
regime_text Regime.bear = codes "BEAR"
regime_text Regime.unknown = codes "UNKNOWN"

abbrev pub risk_text : RiskLevel → Text
risk_text RiskLevel.safe = codes "SAFE"
risk_text RiskLevel.warning = codes "WARNING"
risk_text RiskLevel.high_risk = codes "HIGH_RISK"

abbrev pub news_text : Option NewsLevel → Text
news_text none = codes "None"
news_text (some NewsLevel.high) = codes "HIGH"
news_text (some NewsLevel.medium) = codes "MEDIUM"
news_text (some NewsLevel.low) = codes "LOW"

abbrev pub advice_text : Advice → Text
advice_text Advice.lacks_data = codes "데이터 부족"
advice_text Advice.sell_consider = codes "매도 고려"
advice_text Advice.prepare_take_profit = codes "분할익절 준비"
advice_text Advice.stop_loss_alert = codes "손절 경계"
advice_text Advice.hold = codes "홀드/관찰"

-- A line for each text.
abbrev pub items : List Text → List Text
items [] = []
items (t ∷ ts) = (codes "- " ++ t) ∷ items ts

module _ {F : Type 0} ⦃f : Format F⦄ where
  unfoldable pub format_krw : F → Text
  format_krw value = f.comma0 value ++ codes "원"

  abbrev pub signal_text : Signal F → Text
  signal_text (stop_loss_reached pnl limit) =
      codes "손절 기준 도달 (" ++ f.signed2 pnl ++ codes "% <= -" ++ f.fixed2 limit ++ codes "%)"
  signal_text (trailing_triggered price limit) =
      codes "트레일링 스탑 트리거 (현재가 " ++ f.comma0 price ++ codes " <= 기준가 " ++ f.comma0 limit ++ codes ")"
  signal_text (take_profit_reached pnl target) =
      codes "익절 기준 도달 (" ++ f.signed2 pnl ++ codes "% >= +" ++ f.fixed2 target ++ codes "%)"
  signal_text (rsi_overbought_met rsi limit pnl) =
      codes "RSI 과매수 청산 조건 충족 (RSI "
      ++ f.fixed1 rsi
      ++ codes " > "
      ++ f.digits limit
      ++ codes ", 수익률 "
      ++ f.signed2 pnl
      ++ codes "%)"
  signal_text (time_limit_reached hours limit) =
      codes "보유 시간 제한 도달 (" ++ f.fixed1 hours ++ codes "h >= " ++ show limit ++ codes "h)"
