-- ===== src/Chat/Tests.antt =====
-- The chatbot on concrete inputs. A number x is written `n (10000 * x)`, a time in microseconds.
use coin_pilot.Base.{
  ℕ, ◌≤◌, ◌+◌, length, ◌≡◌, refl, true, false, Option, none, some, List, [], ◌∷◌, ◌++◌, arith,
}
use coin_pilot.Base.Int.{ℤ, pos, ◌+ℤ◌, ◌*ℤ◌}
use coin_pilot.Base.Result.{ok, raise, value_error}
use coin_pilot.Base.Text.{codes, newline}
use coin_pilot.Base.Ordered.{find}
use coin_pilot.Number.Fixed.{fixed, fixed_format, fixed-IsOrdered}
use coin_pilot.Tools.Risk.{safe, Diagnosis, run_risk_diagnosis_tool}
use coin_pilot.Tools.Market.{Outlook}
use coin_pilot.Chat.Settings.{Settings}
use coin_pilot.Chat.Intents.{Intent, classify_intent_fast_path, infer_symbol}
use coin_pilot.Chat.Guard.{Question, same_question, get_cached_response, normalize_session_id}
use coin_pilot.Chat.Footer.{safety_disclaimer, ensure_safety_footer}
use coin_pilot.Chat.Steps.{Step, look, ask, keep, no_requests, run, history, admitted}
use coin_pilot.Chat.Spacing.{Spaced, admitted-Spaced}
use coin_pilot.Chat.History.{run-Recalls}
use coin_pilot.Chat.Action.{Recommendation, recommend}
use coin_pilot.Chat.Action.Careful.{IsCalm, enter-IsCalm}
use coin_pilot.Chat.Process.{Sources, Moments, process_chat}
use coin_pilot.Chat.Process.Finished.{EndsFinished, process_chat-Finished}

-- The settings of an empty environment, but for room for one answer.
abbrev st : Settings
st = record {
  session_cooldown = pos 1_500_000;
  cache_ttl_seconds = pos 300;
  cache_max_entries = pos 1;
  max_input_chars = pos 600;
  max_output_chars = pos 2200;
  enable_premium_review = true;
  premium_review_min_query_len = pos 28;
}

asks_to_sell : classify_intent_fast_path (codes "지금 언제 팔까?") ≡ some Intent.sell_timing_advice
unfolding classify_intent_fast_path
asks_to_sell = refl

asks_to_enter :
    classify_intent_fast_path (codes "BTC 매수 지금 괜찮아?") ≡ some Intent.action_recommendation
unfolding classify_intent_fast_path
asks_to_enter = refl

doge : infer_symbol (codes "DOGE 전망") ≡ "KRW-DOGE"
unfolding infer_symbol
doge = refl

blank_session : normalize_session_id (some (codes "  ")) ≡ codes "default"
unfolding normalize_session_id
blank_session = refl

once :
    ensure_safety_footer st (codes "네. " ++ safety_disclaimer) Intent.doc_search
    ≡ codes "네." ++ newline ++ safety_disclaimer
unfolding ensure_safety_footer
once = refl

abbrev greeting : Question
greeting = (codes "s", codes "안녕")

abbrev other_key : Question
other_key = (codes "s", codes "시장")

abbrev steps : List Step
steps =
    keep 1_000_000 other_key (codes "-")
    ∷ keep 2_000_000 greeting (codes "음")
    ∷ ask 2_500_000 (codes "s")
    ∷ keep 3_000_000 greeting (codes "네")
    ∷ ask 3_000_000 (codes "s")
    ∷ ask 4_000_000 (codes "s")
    ∷ look 4_000_000 other_key
    ∷ []

recalled :
    (get_cached_response st 5_000_000 greeting (run st steps no_requests).cache).0
    ≡ some (codes "네")
unfolding get_cached_response run
recalled = refl

run-Recalls_example :
    (t : ℕ) × (find same_question greeting (history steps []) ≡ some (t, codes "네"))
    × (5_000_000 ≤ t + 300_000_000)
    × (length (run st steps no_requests).cache ≤ 1)
run-Recalls_example = run-Recalls st steps 5_000_000 greeting (codes "네") recalled

through : admitted st (codes "s") steps no_requests ≡ 2_500_000 ∷ 4_000_000 ∷ []
unfolding admitted
through = refl

admitted-Spaced_example : Spaced 1_500_000 0 (admitted st (codes "s") steps no_requests)
unfolding find
admitted-Spaced_example = admitted-Spaced st (codes "s") steps no_requests (omega arith)

-- Every tool fails.
abbrev broken : Sources ℤ
broken = record {
  classify = λ s. none;
  sql = λ s. raise value_error;
  rag = λ s. raise value_error;
  premium = λ s r. none;
  portfolio = raise value_error;
  history = raise value_error;
  outlook = λ s. raise value_error;
  policy = record {
    regime_exit_policy = λ r. none;
    risk_limits = record {
      max_position_size_pct = pos 0;
      max_daily_loss_pct = pos 0;
      max_daily_buy_count = 10;
      cooldown_after_losses = 3;
      cooldown_hours = 2;
      min_trade_interval_minutes = 30;
    };
  };
  review = raise value_error;
  risk = raise value_error;
  sell_timing = raise value_error;
}

abbrev at_once : Moments
at_once = record { look = 2_000_000; ask = 2_000_000; keep = 2_000_000; timed_out = false }

process_chat-Finished_example : EndsFinished st (
    process_chat st
      (λ e. codes "x")
      broken
      at_once
      (codes " 시장 전망 ")
      (some (codes "s"))
      no_requests)
process_chat-Finished_example =
    process_chat-Finished st (λ e. codes "x") broken at_once (codes " 시장 전망 ") (some (codes "s"))
      no_requests tt

failure :
    (process_chat st
      (λ e. codes "x")
      broken
      at_once
      (codes " 시장 전망 ")
      (some (codes "s"))
      no_requests).0
    ≡ codes "챗봇 처리 중 오류가 발생했습니다: x" ++ newline ++ safety_disclaimer
unfolding process_chat
failure = refl

abbrev outlook : Outlook ℤ
outlook = record {
  current_price = pos 10_000;
  rsi14 = some (pos 500_000);
  ma20 = none;
  ma50 = none;
  ma200 = none;
  momentum_1h_pct = some (pos 100);
  volatility_pct = none;
  regime = codes "BULL";
  regime_diff_pct = pos 0;
  trend_signal = [];
  news_risk_score = none;
  news_risk_level = none;
  news_summary = none;
}

abbrev diagnosis : Diagnosis ℤ
diagnosis = record {
  risk_level = safe;
  flags = codes "핵심 리스크 지표는 현재 정상 범위입니다." ∷ [];
  snapshot = record {
    total_pnl = pos 0;
    buy_count = 0;
    sell_count = 0;
    trade_count = 0;
    consecutive_losses = 0;
    is_trading_halted = false;
    position_concentration = pos 2500;
    audit_events_24h = 4;
  };
}

abbrev positions : List (Option ℤ × Option ℤ)
positions = (some (pos 10_000), some (pos 10_000)) ∷ []

diagnosed : run_risk_diagnosis_tool none (some (pos 30_000)) positions 4 ≡ ok diagnosis
unfolding run_risk_diagnosis_tool ◌+ℤ◌ ◌*ℤ◌
diagnosed = refl

recommended :
    recommend safe outlook ≡ ok (Recommendation.enter, codes "리스크 상태가 안정적이고 단기 모멘텀이 양수입니다.")
unfolding recommend
recommended = refl

enter-IsCalm_example : IsCalm none (pos 30_000) positions 4 outlook
enter-IsCalm_example =
    enter-IsCalm fixed-IsOrdered none (some (pos 30_000)) positions 4 diagnosis outlook
      (codes "리스크 상태가 안정적이고 단기 모멘텀이 양수입니다.") diagnosed recommended
