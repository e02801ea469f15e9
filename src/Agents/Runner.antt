-- ===== src/Agents/Runner.antt =====
-- `AgentRunner.run` of src/agents/runner.py: how two answers make a decision.
pub mod Verdicts
use coin_pilot.Base.{
  ℕ, Bool, true, false, Option, none, some, List, [], ◌∷◌, ◌++◌, String, if◌then◌else◌,
}
use coin_pilot.Base.Text.{Text, codes, strip, lower}
use coin_pilot.Agents.Route.{Provider, Route, RouteLabel}
use coin_pilot.Agents.Analyst.{
  Vote, Candidate, AnalystDecision, Safety, GuardianDecision, Reply, answered, failed, is_confirm,
  market_analyst_node, risk_guardian_node,
}

-- What the two models answer, and whether the graph is stopped after 40 seconds.
pub record Models : Type 0 where
  pub analyst : Reply Candidate
  pub guardian : Reply GuardianDecision
  pub timed_out : Bool

-- The row of agent_decisions.
pub record Decision : Type 0 where
  pub decision : Vote
  pub reasoning : Text
  pub confidence : Option ℕ
  pub boundary_violation : Bool
  pub boundary_terms : List String
  pub model_used : Text

pub record RunOutcome : Type 0 where
  pub is_approved : Bool
  pub reasoning : Text
  pub logged : Decision

abbrev provider_text : Provider → Text
provider_text Provider.anthropic = codes "anthropic"
provider_text Provider.openai = codes "openai"

abbrev label_text : RouteLabel → Text
label_text RouteLabel.primary = codes "primary"
label_text RouteLabel.primary_fallback = codes "primary-fallback"
label_text RouteLabel.canary = codes "canary"

-- `route.get("model") or "unknown"`
abbrev or_unknown : Text → Text
or_unknown [] = codes "unknown"
or_unknown (c ∷ s) = c ∷ s

unfoldable pub format_model_used : Route → Text
unfolding strip
format_model_used route =
    provider_text route.provider
    ++ codes ":"
    ++ strip (or_unknown route.model)
    ++ codes " ("
    ++ label_text route.route_label
    ++ codes ")"

-- The graph: the analyst, and after a `CONFIRM` the guardian; an exception ends it.
unfoldable pub run_agents : Models → Reply (AnalystDecision × Option GuardianDecision)
unfolding market_analyst_node risk_guardian_node
run_agents models =
    let analyst = market_analyst_node models.analyst in
    if is_confirm analyst.decision
    then elim (risk_guardian_node analyst models.guardian) [
      | answered guardian ↦ answered (analyst, some guardian)
      | failed error ↦ failed error
    ]
    else answered (analyst, none)

abbrev is_safe : Option GuardianDecision → Bool
is_safe none = false
is_safe (some g) = elim g.decision [ Safety.safe ↦ true | Safety.warning ↦ false ]

abbrev guardian_text : Option GuardianDecision → Text
guardian_text none = codes "Guardian check failed"
guardian_text (some g) = g.reasoning

abbrev reason_of : AnalystDecision → Option GuardianDecision → Text
reason_of analyst guardian =
    if is_confirm analyst.decision
    then (if is_safe guardian
        then codes "[Analyst] "
          ++ analyst.reasoning
          ++ codes " | [Guardian] "
          ++ guardian_text guardian
        else codes "[Risk Warning] " ++ guardian_text guardian)
    else analyst.reasoning

abbrev approves : AnalystDecision → Option GuardianDecision → Bool
approves analyst guardian = if is_confirm analyst.decision then is_safe guardian else false

abbrev vote_of : Bool → Vote
vote_of true = Vote.confirm
vote_of false = Vote.reject

abbrev rejected : Text → Text → Text → RunOutcome
rejected reasoning logged_as model_used = record {
  is_approved = false;
  reasoning = reasoning;
  logged = record {
    decision = Vote.reject;
    reasoning = logged_as;
    confidence = none;
    boundary_violation = false;
    boundary_terms = [];
    model_used = model_used;
  };
}

abbrev decided : Text → AnalystDecision → Option GuardianDecision → RunOutcome
decided model_used analyst guardian = record {
  is_approved = approves analyst guardian;
  reasoning = reason_of analyst guardian;
  logged = record {
    decision = vote_of (approves analyst guardian);
    reasoning = reason_of analyst guardian;
    confidence = some analyst.confidence;
    boundary_violation = analyst.boundary_violation;
    boundary_terms = analyst.boundary_terms;
    model_used = model_used;
  };
}

unfoldable pub run : Route → Models → RunOutcome
unfolding run_agents format_model_used
run route models =
    if models.timed_out
    then rejected (codes "AI Analysis Timed Out (Conservative Fallback: REJECT)")
        (codes "AI Analysis Timed Out (Conservative Fallback)") (format_model_used route)
    else elim (run_agents models) [
      | failed error ↦
          rejected (codes "AI Analysis Error: " ++ error) (codes "AI Error: " ++ error)
            (format_model_used route)
      | answered result ↦ decided (format_model_used route) result.0 result.1
    ]
