-- ===== src/Agents/Analyst.antt =====
-- The analyst's answer in src/agents/analyst.py, and the guardian's in src/agents/guardian.py.
use coin_pilot.Base.{
  ℕ, Bool, true, false, ◌&&◌, List, [], ◌∷◌, ◌++◌, String, length, take, leb, ltb, if◌then◌else◌,
}
use coin_pilot.Base.Text.{Text, codes, lower, strip, rstrip, contains_any, newline, show}

pub data Vote : Type 0 where
  confirm reject : Vote

-- What the analyst's model answers: its decision, the confidence in percent, and the reasoning.
pub record Candidate : Type 0 where
  pub decision : Vote
  pub confidence : ℕ
  pub reasoning : Text

pub record AnalystDecision : Type 0 where
  pub decision : Vote
  pub confidence : ℕ
  pub reasoning : Text
  pub boundary_violation : Bool
  pub boundary_terms : List String

pub data Safety : Type 0 where
  safe warning : Safety

pub record GuardianDecision : Type 0 where
  pub decision : Safety
  pub reasoning : Text

-- RULE_REVALIDATION_TERM_MAP
abbrev rule_terms : List (String × List String)
rule_terms =
    ("rsi", "rsi" ∷ "rsi(14)" ∷ "rsi(7)" ∷ [])
    ∷ ("ma20", "ma20" ∷ "ma(20)" ∷ "moving average" ∷ "이동평균" ∷ [])
    ∷ ("volume", "거래량" ∷ "volume ratio" ∷ "vol_ratio" ∷ "볼륨" ∷ [])
    ∷ ("bollinger", "볼린저" ∷ "bb 하단" ∷ "bb_lower" ∷ "볼린저밴드" ∷ [])
    ∷ []

abbrev terms_in : Text → List (String × List String) → List String
terms_in text [] = []
terms_in text ((canonical, aliases) ∷ rest) =
    let later = terms_in text rest in if contains_any aliases text then canonical ∷ later else later

unfoldable pub detect_rule_revalidation_terms : Text → List String
detect_rule_revalidation_terms [] = []
detect_rule_revalidation_terms (c ∷ s) = terms_in (lower (c ∷ s)) rule_terms

abbrev any_term : List String → Bool
any_term [] = false
any_term (t ∷ ts) = true

unfoldable pub contains_rule_revalidation_reasoning : Text → Bool
unfolding detect_rule_revalidation_terms
contains_rule_revalidation_reasoning reasoning = any_term (detect_rule_revalidation_terms reasoning)

-- `",".join(terms)`
abbrev joined : List String → Text
joined [] = []
joined (t ∷ []) = codes t
joined (t ∷ u ∷ ts) = codes t ++ codes "," ++ joined (u ∷ ts)

abbrev terms_text : List String → Text
terms_text [] = codes "unknown"
terms_text (t ∷ ts) = joined (t ∷ ts)

abbrev preview_of : ℕ → Text → Text
preview_of preview_len raw =
    if leb (length raw) preview_len then raw else rstrip (take preview_len raw) ++ codes "...(후략)"

abbrev or_no_preview : Text → Text
or_no_preview [] = codes "원본 reasoning이 비어 있어 preview를 남기지 못했습니다."
or_no_preview (c ∷ s) = c ∷ s

unfoldable pub build_rule_boundary_audit_note : Text → List String → ℕ → Text
unfolding strip rstrip
build_rule_boundary_audit_note original_reasoning matched_terms preview_len =
    codes "[BoundaryAudit] Rule Engine 재판단 흔적 감지(terms="
    ++ terms_text matched_terms
    ++ codes "). 정책상 차단하지 않고 감사 로그로만 기록합니다. preview="
    ++ or_no_preview (preview_of preview_len (strip original_reasoning))

abbrev vote_text : Vote → Text
vote_text Vote.confirm = codes "CONFIRM"
vote_text Vote.reject = codes "REJECT"

abbrev or_no_reason : Candidate → Text → Text
or_no_reason c [] =
    codes "모델 출력에 분석 사유(reasoning)가 비어 있습니다 (decision="
    ++ vote_text c.decision
    ++ codes ", confidence="
    ++ show c.confidence
    ++ codes ")."
or_no_reason c (x ∷ s) = x ∷ s

abbrev pub is_confirm : Vote → Bool
is_confirm Vote.confirm = true
is_confirm Vote.reject = false

-- `CONFIRM` under 60 is a `REJECT`.
abbrev lacks_confidence : Candidate → Bool
lacks_confidence c = is_confirm c.decision && ltb c.confidence 60

abbrev with_doubt : Candidate → Text → Text
with_doubt c reason =
    if lacks_confidence c
    then codes "[신뢰도 부족: " ++ show c.confidence ++ codes "] " ++ reason
    else reason

abbrev with_note : List String → Text → Text
with_note [] reason = reason
with_note (t ∷ ts) reason =
    reason ++ newline ++ newline ++ build_rule_boundary_audit_note reason (t ∷ ts) 220

-- The node, after the call of the model: its answer, or the text of what it raised.
pub data Reply (A : Type 0) : Type 0 where
  answered : A → Reply A
  failed : Text → Reply A

unfoldable pub market_analyst_node : Reply Candidate → AnalystDecision
unfolding detect_rule_revalidation_terms build_rule_boundary_audit_note strip show
market_analyst_node (failed error) = record {
  decision = Vote.reject;
  confidence = 0;
  reasoning = codes "분석가 출력 검증 실패: " ++ error;
  boundary_violation = false;
  boundary_terms = [];
}
market_analyst_node (answered c) =
    let terms = detect_rule_revalidation_terms (strip c.reasoning) in
    record {
      decision = if lacks_confidence c then Vote.reject else c.decision;
      confidence = c.confidence;
      reasoning = with_note terms (with_doubt c (or_no_reason c (strip c.reasoning)));
      boundary_violation = any_term terms;
      boundary_terms = terms;
    }

-- The guardian's model is not asked after a rejection; what it raises is raised.
unfoldable pub risk_guardian_node :
    AnalystDecision → Reply GuardianDecision → Reply GuardianDecision
risk_guardian_node analyst reply =
    if is_confirm analyst.decision
    then reply
    else answered
        record { decision = Safety.warning; reasoning = codes "Skipped: Analyst already rejected." }
