-- ===== src/Agents/Runner/Verdicts.antt =====
-- When the agents approve a buy.
use coin_pilot.Base.{◌≤◌, ◌≡◌, refl, Bool, true, false, ◌↔◌, arith}
use coin_pilot.Agents.Route.{Route}
use coin_pilot.Agents.Analyst.{
  Vote, Candidate, Safety, GuardianDecision, Reply, answered, failed, market_analyst_node,
  risk_guardian_node,
}
use coin_pilot.Agents.Runner.{Models, run_agents, run}

-- Both models answered in time: the analyst confirms with 60 or more, the guardian finds it safe.
pub record BothAgree (models : Models) : Type 0 where
  pub timely : models.timed_out ≡ false
  pub analyst : Candidate
  pub analyst_reply : models.analyst ≡ answered analyst
  pub confirms : analyst.decision ≡ Vote.confirm
  pub sure : 60 ≤ analyst.confidence
  pub guardian : GuardianDecision
  pub guardian_reply : models.guardian ≡ answered guardian
  pub is_safe : guardian.decision ≡ Safety.safe

abbrev models_of : Reply Candidate → Reply GuardianDecision → Bool → Models
models_of a g late = record { analyst = a; guardian = g; timed_out = late }

agree :
    (route : Route) (a : Reply Candidate) (g : Reply GuardianDecision) (late : Bool)
    → (run route (models_of a g late)).is_approved ≡ true
    → BothAgree (models_of a g late)
unfolding run run_agents market_analyst_node risk_guardian_node
agree route (failed e) g late h = absurd (ground (arith, h))
agree route (answered c) (failed e) late h = absurd (ground (arith, h))
agree route (answered c) (answered g) late h = record {
  timely = ground (arith, h);
  analyst = c;
  analyst_reply = refl;
  confirms = ground (arith, h);
  sure = ground (arith, h);
  guardian = g;
  guardian_reply = refl;
  is_safe = ground (arith, h);
}

approve :
    (route : Route) (models : Models) → BothAgree models → (run route models).is_approved ≡ true
unfolding run run_agents market_analyst_node risk_guardian_node
approve route models b =
    ground (arith, b.timely, b.analyst_reply, b.confirms, b.sure, b.guardian_reply, b.is_safe)

-- The agents approve a buy exactly when both models answer in time, the analyst confirms with a
-- confidence of 60 or more, and the guardian finds it safe: a model that fails, an analyst who
-- rejects or is less sure, and a graph that is stopped, all reject.
pub approved_iff :
    (route : Route) (models : Models) → ((run route models).is_approved ≡ true) ↔ BothAgree models
approved_iff route models =
    (agree route models.analyst models.guardian models.timed_out, approve route models)
