-- ===== src/Agents/Tests.antt =====
-- The agents on concrete inputs. A number x is written `n (10000 * x)`.
use coin_pilot.Base.{
  ◌≡◌, refl, ◌↔◌, true, false, Option, none, some, [], ◌∷◌, String, length, str_eq, if◌then◌else◌,
}
use coin_pilot.Base.Int.{ℤ, pos}
use coin_pilot.Base.Env.{Environment}
use coin_pilot.Base.Text.{Text, codes}
use coin_pilot.Number.Fixed.{fixed, fixed_format}
use coin_pilot.Agents.Route.{
  Route, Provider, RouteLabel, select_ai_decision_route, parse_canary_percent,
}
use coin_pilot.Agents.Route.Canary.{OnTrial, seed_of, canary_iff}
use coin_pilot.Agents.Candles.{OhlcCandle, push_candle, streaks}
use coin_pilot.Agents.Analyst.{Vote, Safety, answered, detect_rule_revalidation_terms}
use coin_pilot.Agents.Runner.{Models, run}
use coin_pilot.Agents.Runner.Verdicts.{BothAgree, approved_iff}

-- The trial is on at 50 percent, which counts as 20, and both providers have a key.
abbrev variables : String → Option Text
variables name =
    if str_eq name "AI_CANARY_ENABLED"
    then some (codes " Yes ")
    else if str_eq name "AI_CANARY_PERCENT"
    then some (codes "50")
    else if str_eq name "OPENAI_API_KEY"
    then some (codes "k")
    else if str_eq name "ANTHROPIC_API_KEY"
    then some (codes "k")
    else none

abbrev env : Environment
env = record { getenv = variables; parse_int = λ s. some (pos 50); parse_float = λ s. none }

percent : parse_canary_percent env 10 ≡ 20
unfolding parse_canary_percent
percent = refl

abbrev chosen : Route
chosen = select_ai_decision_route length env (codes "KRW-BTC") (codes "MR") (some (codes "t")) none

-- The length of the seed stands for its hash.
on_trial : (chosen.route_label ≡ RouteLabel.canary) × (chosen.provider ≡ Provider.openai)
unfolding select_ai_decision_route
on_trial = (refl, refl)

canary_iff_example :
    (chosen.route_label ≡ RouteLabel.canary)
    ↔ OnTrial length env (seed_of length env (codes "KRW-BTC") (codes "MR") (some (codes "t")) none)
canary_iff_example = canary_iff length env (codes "KRW-BTC") (codes "MR") (some (codes "t")) none

terms : detect_rule_revalidation_terms (codes "RSI가 낮고 거래량이 많다") ≡ "rsi" ∷ "volume" ∷ []
unfolding detect_rule_revalidation_terms
terms = refl

abbrev models : Models
models = record {
  analyst = answered record { decision = Vote.confirm; confidence = 60; reasoning = codes "상승 전환" };
  guardian = answered record { decision = Safety.safe; reasoning = codes "문제 없음" };
  timed_out = false;
}

approved_iff_example : ((run chosen models).is_approved ≡ true) ↔ BothAgree models
approved_iff_example = approved_iff chosen models

approved : (run chosen models).reasoning ≡ codes "[Analyst] 상승 전환 | [Guardian] 문제 없음"
unfolding run
approved = refl

abbrev candle : Option ℤ → Option ℤ → Option ℤ → OhlcCandle ℤ
candle o h c = record { timestamp = none; open_ = o; high = h; low = some (pos 90_000); close = c }

-- A candle without a high leaves its open behind.
left_behind :
    push_candle
      (record { opens = []; highs = []; lows = []; closes = [] })
      (candle (some (pos 100_000)) none (some (pos 95_000)))
    ≡ record { opens = pos 100_000 ∷ []; highs = []; lows = []; closes = [] }
unfolding push_candle
left_behind = refl

-- Two rises after a fall.
rises :
    streaks {F = ℤ} 0 0 ((pos 3, pos 2) ∷ (pos 2, pos 1) ∷ (pos 1, pos 2) ∷ (pos 2, pos 1) ∷ [])
    ≡ (1, 2)
rises = refl
