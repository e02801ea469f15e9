-- ===== src/Chat/Process.antt =====
-- `process_chat` and the graph of src/agents/router.py.
pub mod Finished
use coin_pilot.Base.{
  ℕ, suc, Bool, true, false, Option, none, some, List, [], ◌∷◌, ◌++◌, String, get_or, if◌then◌else◌,
}
use coin_pilot.Base.Int.{ℤ, pos, negsuc}
use coin_pilot.Base.Result.{Exn, Result, ok, raise, ◌>>=◌}
use coin_pilot.Base.Text.{Text, codes, strip, show}
use coin_pilot.Number.{Number, lit}
use coin_pilot.Number.Format.{Format}
use coin_pilot.Tools.Risk.{Diagnosis}
use coin_pilot.Tools.Market.{Outlook, Answer}
use coin_pilot.Tools.Portfolio.{Portfolio}
use coin_pilot.Tools.History.{TradeHistory}
use coin_pilot.Tools.Policy.{Policy}
use coin_pilot.Tools.SellTiming.{SellTiming}
use coin_pilot.Tools.Review.{ReviewAnswer}
use coin_pilot.Chat.Settings.{Settings}
use coin_pilot.Chat.Intents.{
  Intent, infer_symbol, classify_intent_fast_path, should_escalate_premium_review,
}
use coin_pilot.Chat.Guard.{
  Guard, get_cached_response, set_cached_response, is_cooldown_blocked, normalize_session_id,
  is_input_too_long,
}
use coin_pilot.Chat.Footer.{ensure_safety_footer}
use coin_pilot.Chat.Action.{action_recommendation_node}
use coin_pilot.Chat.Nodes.{portfolio_node, trade_history_node, market_outlook_node}
use coin_pilot.Chat.Reports.{
  strategy_policy_node, strategy_review_node, risk_diagnosis_node, sell_timing_node, general_node,
}

-- What the tools answer to a request, and the agents behind a model: `classify` and `premium` are
-- `none` where the model fails, or has nothing to say.
pub record Sources (F : Type 0) : Type 0 where
  pub classify : Text → Option Intent
  pub sql : Text → Result Text
  pub rag : Text → Result Text
  pub premium : Text → ReviewAnswer F → Option Text
  pub portfolio : Result (Portfolio F)
  pub history : Result (Answer (TradeHistory F))
  pub outlook : String → Result (Answer (Outlook F))
  pub policy : Policy F
  pub review : Result (ReviewAnswer F)
  pub risk : Result (Diagnosis F)
  pub sell_timing : Result (Answer (SellTiming F))

-- When a request looks into the cache, asks for leave, and keeps its answer; and whether the
-- graph is stopped after 40 seconds.
pub record Moments : Type 0 where
  pub look : ℕ
  pub ask : ℕ
  pub keep : ℕ
  pub timed_out : Bool

abbrev show_ℤ : ℤ → Text
show_ℤ (pos m) = show m
show_ℤ (negsuc m) = codes "-" ++ show (suc m)

abbrev pub blank : Text
blank = codes "질문을 입력해주세요."

abbrev pub too_late : Text
too_late = codes "요청 처리 시간이 초과되었습니다. 잠시 후 다시 시도해주세요."

abbrev pub failed : Text → Text
failed reason = codes "챗봇 처리 중 오류가 발생했습니다: " ++ reason

abbrev pub too_soon : Text → Text
too_soon seconds = codes "요청 간격이 너무 짧습니다. " ++ seconds ++ codes "초 후 다시 시도해주세요."

abbrev refuse : Settings → Text → Text
refuse st response = ensure_safety_footer st response Intent.general_chat

abbrev pub too_long : Settings → Text
too_long st = codes "질문이 너무 깁니다. " ++ show_ℤ st.max_input_chars ++ codes "자 이하로 요약해서 다시 요청해주세요."

module _ {F : Type 0} ⦃n : Number F⦄ ⦃f : Format F⦄ where
  unfoldable pub classifier_node : Sources F → Text → Intent
  unfolding classify_intent_fast_path
  classifier_node tools message = elim (classify_intent_fast_path message) [
    | some intent ↦ intent
    | none ↦ get_or (tools.classify message) Intent.general_chat
  ]

  module _ (st : Settings) where
    abbrev premium_comment : Sources F → Text → ReviewAnswer F → Option Text
    premium_comment tools query answer =
        if should_escalate_premium_review st query then tools.premium query answer else none

    -- The node that the intent leads to.
    unfoldable pub run_node : Sources F → Text → Intent → Result Text
    unfolding infer_symbol should_escalate_premium_review portfolio_node trade_history_node
        market_outlook_node strategy_policy_node strategy_review_node risk_diagnosis_node
        sell_timing_node action_recommendation_node
    run_node tools query Intent.db_query = tools.sql query
    run_node tools query Intent.doc_search = tools.rag query
    run_node tools query Intent.portfolio_status = do
      data_ ← tools.portfolio
      ok (portfolio_node data_)
    run_node tools query Intent.trade_history = do
      data_ ← tools.history
      ok (trade_history_node data_)
    run_node tools query Intent.market_outlook = do
      let symbol = infer_symbol query
      data_ ← tools.outlook symbol
      ok (market_outlook_node symbol data_)
    run_node tools query Intent.strategy_policy = ok (strategy_policy_node tools.policy)
    run_node tools query Intent.strategy_review = do
      data_ ← tools.review
      ok (strategy_review_node 14 data_ (premium_comment tools query data_))
    run_node tools query Intent.risk_diagnosis = do
      data_ ← tools.risk
      ok (risk_diagnosis_node data_)
    run_node tools query Intent.sell_timing_advice = do
      data_ ← tools.sell_timing
      sell_timing_node data_
    run_node tools query Intent.action_recommendation = do
      let symbol = infer_symbol query
      market ← tools.outlook symbol
      risk ← tools.risk
      action_recommendation_node symbol market risk
    run_node tools query Intent.general_chat = ok general_node

    -- The graph: the classifier, then one node.
    unfoldable pub run_graph : Sources F → Text → Result (Text × Intent)
    unfolding classifier_node run_node
    run_graph tools message = do
      let intent = classifier_node tools message
      response ← run_node tools message intent
      ok (response, intent)

    -- Every exception has a text.
    module _ (exn_text : Exn → Text) where
      -- The answer of a request that is let through, and what it leaves.
      unfoldable pub answer_graph : Sources F → Moments → Text → Text → Guard → Text × Guard
      unfolding run_graph ensure_safety_footer set_cached_response
      answer_graph tools at session message g =
          if at.timed_out then (refuse st too_late, g) else elim (run_graph tools message) [
            | raise e ↦ (refuse st (failed (exn_text e)), g)
            | ok result ↦
                let final = ensure_safety_footer st result.0 result.1 in
                (
                  final,
                  record g {
                    cache = set_cached_response st at.keep (session, message) final g.cache;
                  },
                )
          ]

      unfoldable pub answer_uncached : Sources F → Moments → Text → Text → Guard → Text × Guard
      unfolding is_cooldown_blocked answer_graph ensure_safety_footer
      answer_uncached tools at session message g =
          let (blocked, last_request) = is_cooldown_blocked st at.ask session g.last_request in
          elim blocked [
            | some left ↦ (
              refuse st (too_soon (f.fixed1 (lit left 6))),
              record g { last_request = last_request },
            )
            | none ↦
                answer_graph tools at session message (record g { last_request = last_request })
          ]

      unfoldable pub answer_looked : Sources F → Moments → Text → Text → Guard → Text × Guard
      unfolding get_cached_response answer_uncached
      answer_looked tools at session message g =
          let (cached, cache) = get_cached_response st at.look (session, message) g.cache in
          elim cached [
            | some response ↦ (response, record g { cache = cache })
            | none ↦ answer_uncached tools at session message (record g { cache = cache })
          ]

      -- A message without its spaces around it.
      unfoldable pub answer_message : Sources F → Moments → Text → Text → Guard → Text × Guard
      unfolding is_input_too_long answer_looked ensure_safety_footer show
      answer_message tools at session [] g = (refuse st blank, g)
      answer_message tools at session (c ∷ message) g =
          if is_input_too_long st (c ∷ message)
          then (refuse st (too_long st), g)
          else answer_looked tools at session (c ∷ message) g

      unfoldable pub process_chat : Sources F → Moments → Text → Option Text → Guard → Text × Guard
      unfolding answer_message normalize_session_id strip
      process_chat tools at message session_id g =
          answer_message tools at (normalize_session_id session_id) (strip message) g
