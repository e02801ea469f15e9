-- ===== src/Chat/Action.antt =====
-- `action_recommendation_node` of src/agents/router.py.
pub mod Careful
use coin_pilot.Base.{
  Bool, true, false, not, ◌&&◌, Option, none, some, List, [], ◌∷◌, ◌++◌, String, if◌then◌else◌,
}
use coin_pilot.Base.Result.{Result, ok, raise, type_error, ◌>>=◌, or_raise}
use coin_pilot.Base.Text.{Text, codes, newline, join_lines}
use coin_pilot.Number.{Number, whole, ◌≺◌}
use coin_pilot.Number.Format.{Format}
use coin_pilot.Tools.Risk.{RiskLevel, is_safe, is_high_risk, Diagnosis}
use coin_pilot.Tools.News.{NewsLevel}
use coin_pilot.Tools.Market.{Outlook, Answer, no_data, found}
use coin_pilot.Chat.Footer.{safety_disclaimer}
use coin_pilot.Chat.Words.{risk_text, news_text}

pub data Recommendation : Type 0 where
  wait enter hold_off : Recommendation

abbrev action_text : Recommendation → Text
action_text Recommendation.wait = codes "관망"
action_text Recommendation.enter = codes "분할 진입 고려"
action_text Recommendation.hold_off = codes "신규 진입 보류"

abbrev conclusion_text : Recommendation → Text
conclusion_text Recommendation.enter = codes "결론: 현재는 소규모 분할 진입을 고려할 수 있습니다."
conclusion_text _ = codes "결론: 현재는 신규 매수를 보류(관망)하는 쪽이 더 안전합니다."

abbrev is_high : Option NewsLevel → Bool
is_high (some NewsLevel.high) = true
is_high _ = false

module _ {F : Type 0} ⦃n : Number F⦄ where
  -- `x is not None and x > 0`, and `x is not None and x < 65`
  abbrev is_positive : Option F → Bool
  is_positive none = false
  is_positive (some x) = whole 0 ≺ x

  abbrev under_65 : Option F → Bool
  under_65 none = false
  under_65 (some x) = x ≺ whole 65

  module _ ⦃f : Format F⦄ where
    -- The recommendation with its reason. A missing score cannot be formatted.
    unfoldable pub recommend : RiskLevel → Outlook F → Result (Recommendation × Text)
    recommend level o =
        if is_safe level
          && is_positive o.momentum_1h_pct
          && under_65 o.rsi14
          && not (is_high o.news_risk_level)
        then ok (Recommendation.enter, codes "리스크 상태가 안정적이고 단기 모멘텀이 양수입니다.")
        else if is_high_risk level
        then ok (Recommendation.hold_off, codes "리스크 가드레일이 경고 구간으로, 방어가 우선입니다.")
        else if is_high o.news_risk_level
        then (do
          score ← or_raise o.news_risk_score type_error
          ok (
            Recommendation.hold_off,
            codes "뉴스 리스크가 HIGH(" ++ f.fixed1 score ++ codes ")로 집계되어 이벤트 변동성 위험이 큽니다.",
          ))
        else ok (Recommendation.wait, codes "데이터 기준으로 보수적 접근이 유리합니다.")

    abbrev momentum_line : Option F → Text
    momentum_line none = codes "- 1시간 모멘텀: N/A"
    momentum_line (some m) = codes "- 1시간 모멘텀: " ++ f.signed2 m ++ codes "%"

    abbrev rsi_text : Option F → Text
    rsi_text none = codes "N/A"
    rsi_text (some rsi) = f.repr rsi

    abbrev news_line : Option NewsLevel → Option F → Text
    news_line level none = codes "- 뉴스 리스크: 데이터 부족"
    news_line level (some score) =
        codes "- 뉴스 리스크: " ++ news_text level ++ codes " (" ++ f.fixed1 score ++ codes ")"

    unfoldable pub action_recommendation_node :
        String → Answer (Outlook F) → Diagnosis F → Result Text
    unfolding recommend
    action_recommendation_node symbol (no_data message) risk =
        ok (codes "시장 데이터가 부족해 행동 제안을 생성할 수 없습니다. 데이터가 충분해진 뒤 다시 요청해주세요.\n" ++ safety_disclaimer)
    action_recommendation_node symbol (found o) risk = do
      (action, reason) ← recommend risk.risk_level o
      ok (
          join_lines (
            conclusion_text action
            ∷ (codes symbol ++ codes " 실행 제안(자동매매 아님): " ++ action_text action)
            ∷ (codes "- 근거: " ++ reason)
            ∷ (codes "- 레짐: " ++ o.regime ++ codes " / RSI(14): " ++ rsi_text o.rsi14)
            ∷ momentum_line o.momentum_1h_pct
            ∷ (codes "- 리스크 레벨: " ++ risk_text risk.risk_level)
            ∷ news_line o.news_risk_level o.news_risk_score
            ∷ codes "- 제안 방식: 시나리오 기반(진입/보류)이며 자동 주문은 수행하지 않습니다."
            ∷ safety_disclaimer
            ∷ []))
