-- ===== src/Chat/Intents.antt =====
-- What src/agents/router.py reads out of a question by keywords.
use coin_pilot.Base.{
  ℕ, ◌+◌, Bool, true, false, not, ◌&&◌, Option, none, some, List, [], ◌∷◌, String, length, leb, ltb,
  if◌then◌else◌,
}
use coin_pilot.Base.Text.{Text, codes, lower, contains, contains_any, strip}
use coin_pilot.Chat.Settings.{Settings, at_least}

pub data Intent : Type 0 where
  db_query doc_search portfolio_status market_outlook strategy_policy strategy_review : Intent
  trade_history risk_diagnosis sell_timing_advice action_recommendation general_chat : Intent

-- `intent in SCENARIO_REQUIRED_INTENTS`
abbrev pub scenario_required : Intent → Bool
scenario_required Intent.db_query = false
scenario_required Intent.doc_search = false
scenario_required Intent.portfolio_status = false
scenario_required Intent.general_chat = false
scenario_required _ = true

abbrev aliases : List (String × String)
aliases =
    ("krw-btc", "KRW-BTC")
    ∷ ("btc", "KRW-BTC")
    ∷ ("비트코인", "KRW-BTC")
    ∷ ("bitcoin", "KRW-BTC")
    ∷ ("krw-eth", "KRW-ETH")
    ∷ ("eth", "KRW-ETH")
    ∷ ("이더리움", "KRW-ETH")
    ∷ ("ethereum", "KRW-ETH")
    ∷ ("krw-xrp", "KRW-XRP")
    ∷ ("xrp", "KRW-XRP")
    ∷ ("리플", "KRW-XRP")
    ∷ ("krw-sol", "KRW-SOL")
    ∷ ("sol", "KRW-SOL")
    ∷ ("솔라나", "KRW-SOL")
    ∷ ("krw-doge", "KRW-DOGE")
    ∷ ("doge", "KRW-DOGE")
    ∷ ("도지", "KRW-DOGE")
    ∷ []

abbrev first_alias : Text → List (String × String) → String
first_alias s [] = "KRW-BTC"
first_alias s ((key, symbol) ∷ rest) = if contains (codes key) s then symbol else first_alias s rest

unfoldable pub infer_symbol : Text → String
infer_symbol message = first_alias (lower message) aliases

abbrev action_terms : List String
action_terms = "매수" ∷ "진입" ∷ "살까" ∷ "사도" ∷ "들어가" ∷ "홀드" ∷ "관망" ∷ "보유" ∷ "포지션" ∷ []

abbrev decision_terms : List String
decision_terms = "좋" ∷ "안하는게" ∷ "해야" ∷ "해도" ∷ "할까" ∷ "맞" ∷ "괜찮" ∷ "어때" ∷ "지금" ∷ "현재 기준" ∷ []

unfoldable pub is_action_decision_query : Text → Bool
is_action_decision_query text = contains_any action_terms text && contains_any decision_terms text

abbrev sell_timing_keywords : List String
sell_timing_keywords =
    "언제 매도" ∷ "언제 팔" ∷ "매도 타이밍" ∷ "익절 타이밍" ∷ "청산 타이밍" ∷ "매도하는게" ∷ "팔아야" ∷ "정리할까" ∷ "매도하는 게" ∷ []

abbrev trade_history_keywords : List String
trade_history_keywords =
    "마지막 sell" ∷ "마지막 매도" ∷ "마지막 매매" ∷ "마지막 매매 결과" ∷ "마지막 거래" ∷ "마지막 거래 결과" ∷ "최근 sell" ∷ "최근 매도"
    ∷ "마지막 체결" ∷ "최근 체결" ∷ "최근 매매 결과" ∷ "체결 내역" ∷ "트레이드 히스토리" ∷ "trade history" ∷ "손해본거" ∷ "수익난거"
    ∷ "마지막 손익" ∷ "얼마에 사서" ∷ "얼마에 팔았" ∷ []

abbrev strategy_policy_keywords : List String
strategy_policy_keywords =
    "매도 전략" ∷ "청산 전략" ∷ "청산 규칙" ∷ "매도 규칙" ∷ "전략 규칙" ∷ "익절 규칙" ∷ "손절 규칙" ∷ "exit 전략" ∷ []

abbrev policy_cues : List String
policy_cues = "어떻게" ∷ "뭐야" ∷ "설명" ∷ "알려" ∷ "정의" ∷ []

abbrev strategy_review_keywords : List String
strategy_review_keywords = "전략 장단점" ∷ "전략 리뷰" ∷ "성과 분석" ∷ "리뷰" ∷ "코칭" ∷ "개선안" ∷ []

abbrev action_keywords : List String
action_keywords = "진입" ∷ "매수해도" ∷ "사도" ∷ "행동" ∷ "어떻게 할까" ∷ "추천" ∷ []

abbrev risk_keywords : List String
risk_keywords = "리스크" ∷ "위험" ∷ "주의" ∷ "손실" ∷ "위험요소" ∷ "경고" ∷ []

abbrev market_keywords : List String
market_keywords = "시장" ∷ "전망" ∷ "모멘텀" ∷ "레짐" ∷ "분위기" ∷ "해석" ∷ "추세" ∷ []

abbrev portfolio_keywords : List String
portfolio_keywords = "잔고" ∷ "자산" ∷ "포트폴리오" ∷ "보유" ∷ "포지션" ∷ "평가액" ∷ []

abbrev doc_keywords : List String
doc_keywords = "규칙" ∷ "아키텍처" ∷ "왜" ∷ "어떻게" ∷ "정책" ∷ "설명" ∷ "문서" ∷ []

abbrev sql_keywords : List String
sql_keywords = "sql" ∷ "쿼리" ∷ "수익률" ∷ "거래내역" ∷ "price" ∷ "pnl" ∷ "balance" ∷ "count" ∷ []

unfoldable pub classify_intent_fast_path : Text → Option Intent
unfolding is_action_decision_query
classify_intent_fast_path message =
    let text = lower message in
    if contains_any trade_history_keywords text
    then some Intent.trade_history
    else if contains_any sell_timing_keywords text
    then some Intent.sell_timing_advice
    else if contains_any strategy_policy_keywords text
    then some Intent.strategy_policy
    else if contains (codes "전략") text
        && contains_any policy_cues text
        && not (contains_any strategy_review_keywords text)
    then some Intent.strategy_policy
    else if contains_any strategy_review_keywords text
    then some Intent.strategy_review
    else if is_action_decision_query text
    then some Intent.action_recommendation
    else if contains_any action_keywords text
    then some Intent.action_recommendation
    else if contains_any risk_keywords text
    then some Intent.risk_diagnosis
    else if contains_any market_keywords text
    then some Intent.market_outlook
    else if contains_any portfolio_keywords text
    then some Intent.portfolio_status
    else if contains_any doc_keywords text
    then some Intent.doc_search
    else if contains_any sql_keywords text
    then some Intent.db_query
    else none

abbrev premium_review_hints : List String
premium_review_hints =
    "장단점" ∷ "개선" ∷ "원인" ∷ "왜" ∷ "근거" ∷ "리스크" ∷ "성과" ∷ "패턴" ∷ "회고" ∷ "손실" ∷ "최적화" ∷ "포지션" ∷ "시나리오"
    ∷ []

-- `sum(1 for keyword in keywords if keyword in text)`
abbrev count_hints : List String → Text → ℕ
count_hints [] text = 0
count_hints (hint ∷ hints) text =
    (if contains (codes hint) text then 1 else 0) + count_hints hints text

unfoldable pub should_escalate_premium_review : Settings → Text → Bool
unfolding strip
should_escalate_premium_review st query =
    if not st.enable_premium_review
    then false
    else let text = lower (strip query) in
      if ltb (length text) (at_least 1 st.premium_review_min_query_len)
      then false
      else leb 2 (count_hints premium_review_hints text)
