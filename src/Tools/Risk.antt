-- ===== src/Tools/Risk.antt =====
-- src/agents/tools/risk_diagnosis_tool.py. Rows come from the queries; `none` is NULL.
pub mod Spread
use coin_pilot.Base.{
  ℕ, Bool, true, false, not, ◌&&◌, Option, none, some, List, [], ◌∷◌, ◌++◌, foldl, map, get_or, leb,
  if◌then◌else◌,
}
use coin_pilot.Base.Result.{Result, ok, ◌>>=◌, or_raise, zero_division}
use coin_pilot.Base.Text.{Text, codes, show}
use coin_pilot.Number.{Number, lit, whole, ◌⊕◌, ◌⊗◌, ◌⊘◌, ◌≺◌, ◌≼◌}
use coin_pilot.Number.Format.{Format}

pub data RiskLevel : Type 0 where
  safe warning high_risk : RiskLevel

abbrev pub is_safe : RiskLevel → Bool
is_safe RiskLevel.safe = true
is_safe _ = false

abbrev pub is_high_risk : RiskLevel → Bool
is_high_risk RiskLevel.high_risk = true
is_high_risk _ = false

-- The last row of daily_risk_state.
pub record RiskRow {ℓ} (F : Type ℓ) : Type ℓ where
  pub total_pnl : Option F
  pub buy_count : Option ℕ
  pub sell_count : Option ℕ
  pub trade_count : Option ℕ
  pub consecutive_losses : Option ℕ
  pub is_trading_halted : Option Bool

-- A position's quantity and the last close of its symbol.
abbrev pub PositionRow {ℓ} : Type ℓ → Type ℓ
PositionRow F = Option F × Option F

pub record Snapshot {ℓ} (F : Type ℓ) : Type ℓ where
  pub total_pnl : F
  pub buy_count : ℕ
  pub sell_count : ℕ
  pub trade_count : ℕ
  pub consecutive_losses : ℕ
  pub is_trading_halted : Bool
  pub position_concentration : F
  pub audit_events_24h : ℕ

pub record Diagnosis {ℓ} (F : Type ℓ) : Type ℓ where
  pub risk_level : RiskLevel
  pub flags : List Text
  pub snapshot : Snapshot F

-- `int(row.get(name) or 0) if row else 0`
abbrev pub count_in {ℓ} : {F : Type ℓ} → (RiskRow F → Option ℕ) → Option (RiskRow F) → ℕ
count_in field none = 0
count_in field (some row) = get_or (field row) 0

abbrev pub halted_in {ℓ} : {F : Type ℓ} → Option (RiskRow F) → Bool
halted_in none = false
halted_in (some row) = get_or row.is_trading_halted false

-- A level with the flags so far.
abbrev Flagged : Type 0
Flagged = RiskLevel × List Text

abbrev flag_if : Bool → RiskLevel → Text → Flagged → Flagged
flag_if true level text v = (level, v.1 ++ text ∷ [])
flag_if false level text v = v

abbrev or_normal : Flagged → Flagged
or_normal (level, []) = (level, codes "핵심 리스크 지표는 현재 정상 범위입니다." ∷ [])
or_normal (level, f ∷ flags) = (level, f ∷ flags)

module _ {ℓ} {F : Type ℓ} ⦃n : Number F⦄ where
  abbrev pub value_of : PositionRow F → F
  value_of row = get_or row.0 (whole 0) ⊗ get_or row.1 (whole 0)

  -- `max(...)` of a list with a first element.
  abbrev pub max_from : F → List F → F
  max_from x [] = x
  max_from x (y ∷ ys) = max_from (if x ≺ y then y else x) ys

  abbrev pub shares : F → List F → Result (List F)
  shares denominator [] = ok []
  shares denominator (v ∷ values) = do
    q ← or_raise (v ⊘ denominator) zero_division
    rest ← shares denominator values
    ok (q ∷ rest)

  abbrev pub max_share : List F → F
  max_share [] = whole 0
  max_share (x ∷ xs) = max_from x xs

  unfoldable pub concentration_of : F → List (PositionRow F) → Result F
  concentration_of total_balance rows =
      let values = map value_of rows in
      let denominator = total_balance ⊕ foldl ◌⊕◌ (whole 0) values in
      if whole 0 ≺ denominator
      then (do all_shares ← shares denominator values; ok (max_share all_shares))
      else ok (whole 0)

  module _ ⦃f : Format F⦄ where
    -- The five tests in their order.
    unfoldable pub judge : Bool → ℕ → ℕ → F → ℕ → RiskLevel × List Text
    judge halted losses buys concentration audits = do
      let v₁ = flag_if halted RiskLevel.high_risk (codes "현재 거래 중단 상태입니다.") (RiskLevel.safe, [])
      let v₂ =
          flag_if (leb 3 losses) RiskLevel.high_risk
            (codes "연속 손실 " ++ show losses ++ codes "회로 쿨다운 필요 구간입니다.") v₁
      let v₃ =
          flag_if (leb 8 buys && not (is_high_risk v₂.0)) RiskLevel.warning
            (codes "당일 BUY 횟수 " ++ show buys ++ codes "회로 한도(10회)에 근접했습니다.") v₂
      let v₄ =
          flag_if ((lit 30 2 ≼ concentration) && is_safe v₃.0) RiskLevel.warning
            (codes "단일 포지션 집중도 " ++ f.fixed1 (concentration ⊗ whole 100) ++ codes "%로 분산이 부족합니다.")
            v₃
      let v₅ =
          flag_if (leb 5 audits && is_safe v₄.0) RiskLevel.warning
            (codes "최근 24시간 리스크 이벤트가 " ++ show audits ++ codes "건으로 증가했습니다.") v₄
      or_normal v₅

    unfoldable pub run_risk_diagnosis_tool :
        Option (RiskRow F) → Option F → List (PositionRow F) → ℕ → Result (Diagnosis F)
    unfolding concentration_of judge show
    run_risk_diagnosis_tool risk_row balance position_rows audits = do
      concentration ← concentration_of (get_or balance (whole 0)) position_rows
      let losses = count_in (λ row. row.consecutive_losses) risk_row
      let buys = count_in (λ row. row.buy_count) risk_row
      let halted = halted_in risk_row
      let (level, flags) = judge halted losses buys concentration audits
      ok (record {
        risk_level = level;
        flags = flags;
        snapshot = record {
          total_pnl = elim risk_row [ none ↦ whole 0 | some row ↦ get_or row.total_pnl (whole 0) ];
          buy_count = buys;
          sell_count = count_in (λ row. row.sell_count) risk_row;
          trade_count = count_in (λ row. row.trade_count) risk_row;
          consecutive_losses = losses;
          is_trading_halted = halted;
          position_concentration = concentration;
          audit_events_24h = audits;
        };
      })
