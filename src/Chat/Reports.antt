-- ===== src/Chat/Reports.antt =====
-- The nodes of src/agents/router.py that write an answer out of a judgement of the tools, or of the settings.
use coin_pilot.Base.{ℕ, Option, none, some, List, [], ◌∷◌, ◌++◌, map, take, String}
use coin_pilot.Base.Result.{Result, ok, type_error, ◌>>=◌, or_raise}
use coin_pilot.Base.Text.{Text, codes, join_lines, show}
use coin_pilot.Number.{Number, whole, ◌⊗◌}
use coin_pilot.Number.Format.{Format}
use coin_pilot.Strategy.Config.{Regime}
use coin_pilot.Tools.Risk.{Diagnosis}
use coin_pilot.Tools.Market.{Answer, no_data, found}
use coin_pilot.Tools.Policy.{Policy}
use coin_pilot.Tools.SellTiming.{Thresholds, Analyzed, SellTiming}
use coin_pilot.Tools.Review.{Review, ReviewAnswer, no_rows, no_realized, reviewed}
use coin_pilot.Chat.Footer.{safety_disclaimer}
use coin_pilot.Chat.Nodes.{disclaimed}
use coin_pilot.Chat.Words.{regime_text, risk_text, advice_text, items, format_krw, signal_text}

abbrev or_line : String → List Text → List Text
or_line fallback [] = codes fallback ∷ []
or_line fallback (t ∷ ts) = t ∷ ts

abbrev commentary : Option Text → List Text
commentary none = []
commentary (some text) = [] ∷ codes "심화 리뷰 코멘트:" ∷ text ∷ []

module _ {F : Type 0} ⦃n : Number F⦄ ⦃f : Format F⦄ where
  abbrev policy_lines : Policy F → List Regime → List Text
  policy_lines data_ [] = []
  policy_lines data_ (regime ∷ regimes) = elim (data_.regime_exit_policy regime) [
    | none ↦ policy_lines data_ regimes
    | some cfg ↦
        (codes "- "
          ++ regime_text regime
          ++ codes ": 익절 +"
          ++ f.fixed1 cfg.take_profit_pct
          ++ codes "%, 손절 -"
          ++ f.fixed1 cfg.stop_loss_pct
          ++ codes "%, 트레일링 "
          ++ f.fixed1 cfg.trailing_stop_activation_pct
          ++ codes "% 활성/"
          ++ f.fixed1 cfg.trailing_stop_pct
          ++ codes "% 하락, RSI>"
          ++ f.digits cfg.rsi_overbought
          ++ codes " (최소수익 "
          ++ f.fixed1 cfg.rsi_exit_min_profit_pct
          ++ codes "%), 최대보유 "
          ++ show cfg.time_limit_hours
          ++ codes "h")
        ∷ policy_lines data_ regimes
  ]

  unfoldable pub strategy_policy_node : Policy F → Text
  unfolding show
  strategy_policy_node data_ =
      let limits = data_.risk_limits in
      join_lines (
        codes "현재 전략: Adaptive Mean Reversion (Regime-based)"
        ∷ codes "레짐별 매도(청산) 규칙:"
        ∷ (policy_lines data_ (Regime.bull ∷ Regime.sideways ∷ Regime.bear ∷ [])
            ++ codes "하드 리스크 한도:"
              ∷ (codes "- 일손실 -"
                  ++ f.fixed1 limits.max_daily_loss_pct
                  ++ codes "%, 일일 신규진입 "
                  ++ show limits.max_daily_buy_count
                  ++ codes "회, "
                  ++ show limits.cooldown_after_losses
                  ++ codes "연패 시 "
                  ++ show limits.cooldown_hours
                  ++ codes "h 쿨다운")
              ∷ safety_disclaimer
              ∷ []))

  abbrev review_lines : ℕ → Review F → List Text
  review_lines days r =
      codes "최근 전략 리뷰 결과:"
      ∷ (codes "- 분석 기간: 최근 " ++ show days ++ codes "일")
      ∷ (codes "- 실현 손익: " ++ format_krw r.total_realized_pnl_krw)
      ∷ (codes "- 승률: "
          ++ f.fixed1 (r.win_rate ⊗ whole 100)
          ++ codes "% ("
          ++ show r.win_count
          ++ codes "승/"
          ++ show r.sell_count
          ++ codes "건)")
      ∷ (codes "- 평균 손익률: " ++ f.signed2 r.avg_pnl_pct ++ codes "%")
      ∷ (codes "- 최대 연속 손실: " ++ show r.max_loss_streak ++ codes "회")
      ∷ []
      ∷ codes "장점:"
      ∷ (items (take 3 (or_line "아직 뚜렷한 강점 신호가 부족합니다." r.strengths))
          ++ []
            ∷ codes "약점:"
            ∷ (items (take 3 (or_line "주요 약점은 관측되지 않았습니다." r.weaknesses))
                ++ []
                  ∷ codes "즉시 개선 3가지:"
                  ∷ (items (take 3 r.improvements) ++ [] ∷ safety_disclaimer ∷ [])))

  -- The last argument is the comment of the stronger model, where it is asked for and answers.
  unfoldable pub strategy_review_node : ℕ → ReviewAnswer F → Option Text → Text
  unfolding format_krw show
  strategy_review_node days no_rows comment =
      disclaimed (codes "최근 " ++ show days ++ codes "일 데이터가 없어 전략 리뷰를 생성할 수 없습니다.")
  strategy_review_node days (no_realized notes) comment =
      disclaimed (codes "SELL 실현손익을 계산할 수 있는 데이터가 없습니다.")
  strategy_review_node days (reviewed r) comment =
      join_lines (review_lines days r ++ commentary comment)

  unfoldable pub risk_diagnosis_node : Diagnosis F → Text
  unfolding format_krw show
  risk_diagnosis_node data_ =
      let s = data_.snapshot in
      join_lines (
        (codes "현재 리스크 레벨: " ++ risk_text data_.risk_level)
        ∷ (codes "- 당일 손익: " ++ format_krw s.total_pnl)
        ∷ (codes "- BUY/총 체결: " ++ show s.buy_count ++ codes " / " ++ show s.trade_count)
        ∷ (codes "- 연속 손실: " ++ show s.consecutive_losses ++ codes "회")
        ∷ (codes "- 포지션 집중도: " ++ f.fixed1 (s.position_concentration ⊗ whole 100) ++ codes "%")
        ∷ (codes "- 최근 24h 리스크 이벤트: " ++ show s.audit_events_24h ++ codes "건")
        ∷ codes "주요 경고/진단:"
        ∷ (items data_.flags ++ safety_disclaimer ∷ []))

  abbrev threshold_lines : Option (Thresholds F) → List Text
  threshold_lines none = []
  threshold_lines (some th) =
      (codes "  · 기준: 익절 +"
        ++ f.fixed1 th.take_profit_pct
        ++ codes "% / 손절 -"
        ++ f.fixed1 th.stop_loss_pct
        ++ codes "% / 트레일링 기준가 "
        ++ f.comma0 th.trailing_stop_price)
      ∷ []

  -- A missing profit cannot be formatted.
  abbrev analyzed_lines : List (Analyzed F) → Result (List Text)
  analyzed_lines [] = ok []
  analyzed_lines (item ∷ rest) = do
    let e = item.evaluation
    pnl ← or_raise e.pnl_pct type_error
    later ← analyzed_lines rest
    ok (
        (codes "- "
          ++ item.symbol
          ++ codes ": "
          ++ advice_text e.recommendation
          ++ codes " (수익률 "
          ++ f.signed2 pnl
          ++ codes "%, 레짐 "
          ++ regime_text item.current_regime
          ++ codes ")")
        ∷ (threshold_lines e.thresholds
            ++ map (λ s. codes "  · 신호: " ++ signal_text s) (take 2 e.signals)
            ++ later))

  unfoldable pub sell_timing_node : Answer (SellTiming F) → Result Text
  unfolding show
  sell_timing_node (no_data message) = ok (disclaimed message)
  sell_timing_node (found data_) = do
    positions ← analyzed_lines data_.positions
    ok (
        join_lines (
          codes "보유 종목 매도 타이밍 코칭:"
          ∷ (codes "- 대상 "
              ++ show data_.total_positions
              ++ codes "개 포지션 중 즉시 점검 "
              ++ show data_.sell_consider_count
              ++ codes "건")
          ∷ (positions
              ++ codes "- 참고: 자동 매도 실행은 하지 않으며, 시나리오 기반 제안만 제공합니다." ∷ safety_disclaimer ∷ [])))

abbrev pub general_node : Text
general_node =
    codes
      "안녕하세요. CoinPilot AI 트레이딩 비서입니다.\n아래 유형의 질문을 지원합니다:\n- 포트폴리오 현황 (잔고/포지션/평가액)\n- 체결 이력/마지막 SELL (매수가/매도가/실현손익)\n- 시장 해석 (레짐/모멘텀/변동성)\n- 전략 규칙 설명 (매도/청산 정책)\n- 전략 리뷰 (장점/약점/개선안)\n- 보유 종목 매도 타이밍 코칭"
