-- ===== src/Guardrails/Tests.antt =====
-- The guardrails on concrete inputs, over a table that behaves like Redis.
use coin_pilot.Base.{◌≡◌, ◌≢◌, refl, true, false, none, some, [], ◌∷◌, arith}
use coin_pilot.Redis.Table.{Table, empty, table, table-IsRedis}
use coin_pilot.Guardrails.{
  GuardConfig, Block, is_low_credit_error, is_ai_error_reason, get_reject_cooldown_minutes,
  should_block_ai_call, bump, cool_down, after_rejection, update_ai_guardrails_after_decision,
}
use coin_pilot.Guardrails.Blocks.{
  Forgiven, next_cooldown, rejection_blocks, credit_blocks, error_streak_blocks, approval-Forgiven,
}
use coin_pilot.Guardrails.Budget.{calls, hour_budget}

abbrev defaults : GuardConfig
defaults = record {
  reject_cooldown_min_1 = none;
  reject_cooldown_min_2 = none;
  reject_cooldown_min_3 = none;
  reject_cooldown_window_min = none;
  max_calls_per_hour = some 2;
  max_calls_per_day = some 3;
  credit_block_minutes = none;
  error_streak_threshold = some 1;
  error_block_minutes = none;
}

reasons :
    (is_low_credit_error "Your CREDIT balance is too low" ≡ true)
    × (is_low_credit_error "weak volume" ≡ false)
    × (is_ai_error_reason "AI Analysis Error: timeout" ≡ true)
unfolding is_low_credit_error is_ai_error_reason
reasons = (refl, refl, refl)

first_rejection :
    should_block_ai_call table 1299
      (update_ai_guardrails_after_decision table 1000 (some empty) 7 false "weak volume" defaults)
      7
      defaults
    ≡ some (Block.cooldown_active 1)
unfolding should_block_ai_call update_ai_guardrails_after_decision after_rejection cool_down bump
    get_reject_cooldown_minutes is_low_credit_error is_ai_error_reason
first_rejection = refl

rejection_blocks_example :
    should_block_ai_call table 1299
      (update_ai_guardrails_after_decision table 1000 (some empty) 7 false "weak volume" defaults)
      7
      defaults
    ≢ none
unfolding get_reject_cooldown_minutes
rejection_blocks_example =
    rejection_blocks table table-IsRedis 1000 1299 7 "weak volume" defaults defaults empty
      (ground arith) (ground arith)

credit_blocks_example :
    should_block_ai_call table 4599
      (update_ai_guardrails_after_decision table 1000 (some empty) 7 false "billing" defaults)
      8
      defaults
    ≢ none
unfolding is_low_credit_error
credit_blocks_example =
    credit_blocks table table-IsRedis 1000 4599 7 8 "billing" defaults defaults empty refl
      (ground arith) (ground arith)

error_streak_blocks_example :
    should_block_ai_call table 1100
      (update_ai_guardrails_after_decision table 1000
        (some empty)
        7
        false
        "AI Analysis Error"
        defaults)
      8
      defaults
    ≢ none
unfolding is_low_credit_error is_ai_error_reason
error_streak_blocks_example =
    error_streak_blocks table table-IsRedis 1000 1100 7 8 "AI Analysis Error" defaults defaults
      empty refl refl (ground arith) (ground arith) (ground arith)

approval-Forgiven_example :
    (s' : Table) × (update_ai_guardrails_after_decision table 5 (some empty) 7 true "fine" defaults
      ≡ some s')
    × Forgiven table 9 7 empty s'
    × (next_cooldown table 9 7 defaults s' ≡ 300)
approval-Forgiven_example = approval-Forgiven table table-IsRedis 5 9 7 "fine" defaults empty

hour_budget_example :
    should_block_ai_call table 3500 (calls table 10 (20 ∷ []) (some empty)) 7 defaults ≢ none
hour_budget_example =
    hour_budget table table-IsRedis 10 3500 7 (20 ∷ []) defaults empty
      (ground arith, refl, (ground arith, refl)) (ground arith)
