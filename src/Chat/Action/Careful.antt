-- ===== src/Chat/Action/Careful.antt =====
-- When the chatbot recommends to enter: the tool of the risk and the node together.
use coin_pilot.Base.{
  ℕ, ◌<◌, ◌≡◌, ◌≢◌, sym, ◌∙◌, Bool, true, false, Option, some, List, get_or, arith,
}
use coin_pilot.Base.Result.{ok}
use coin_pilot.Base.Text.{Text}
use coin_pilot.Number.{Number, lit, whole, ◌≺◌, ◌≼◌}
use coin_pilot.Number.Order.{IsOrdered}
use coin_pilot.Number.Format.{Format}
use coin_pilot.Tools.Risk.{
  RiskLevel, RiskRow, PositionRow, Diagnosis, count_in, halted_in, judge, concentration_of,
  run_risk_diagnosis_tool,
}
use coin_pilot.Tools.Risk.Spread.{total_of, IsSpread, concentration-IsSpread}
use coin_pilot.Tools.News.{NewsLevel}
use coin_pilot.Tools.Market.{Outlook}
use coin_pilot.Chat.Action.{Recommendation, recommend}

module _ {F : Type 0} ⦃n : Number F⦄ ⦃f : Format F⦄ where
  -- No risk is flagged, and the market is on the way up, not overbought, and without bad news.
  pub record IsCalm (row : Option (RiskRow F)) (balance : F) (positions : List (PositionRow F))
      (audits : ℕ) (o : Outlook F) : Type 0 where
    pub trading : halted_in row ≡ false
    pub losses : count_in (λ r. r.consecutive_losses) row < 3
    pub buys : count_in (λ r. r.buy_count) row < 8
    pub spread :
        (whole 0 ≺ total_of balance positions) ≡ true → IsSpread (lit 30 2) balance positions
    pub events : audits < 5
    pub momentum : (m : F) × (o.momentum_1h_pct ≡ some m) × ((whole 0 ≺ m) ≡ true)
    pub rsi : (r : F) × (o.rsi14 ≡ some r) × ((r ≺ whole 65) ≡ true)
    pub news : o.news_risk_level ≢ some NewsLevel.high

  judge-safe :
      (halted : Bool) (losses buys : ℕ) (concentration : F) (audits : ℕ)
      → (judge halted losses buys concentration audits).0 ≡ RiskLevel.safe
      → (halted ≡ false)
        × (losses < 3)
        × (buys < 8)
        × ((lit 30 2 ≼ concentration) ≡ false)
        × (audits < 5)
  unfolding judge
  judge-safe halted losses buys concentration audits h = ground (arith, h)

  recommend-enter :
      (level : RiskLevel) (o : Outlook F) (reason : Text)
      → recommend level o ≡ ok (Recommendation.enter, reason)
      → (level ≡ RiskLevel.safe)
        × ((m : F) × (o.momentum_1h_pct ≡ some m) × ((whole 0 ≺ m) ≡ true))
        × ((r : F) × (o.rsi14 ≡ some r) × ((r ≺ whole 65) ≡ true))
        × (o.news_risk_level ≢ some NewsLevel.high)
  unfolding recommend
  recommend-enter level o reason h = ground (arith, h)

  tool-level :
      (row : Option (RiskRow F)) (balance : Option F) (positions : List (PositionRow F))
      (audits : ℕ) (d : Diagnosis F)
      → run_risk_diagnosis_tool row balance positions audits ≡ ok d
      → d.risk_level
        ≡ (judge
            (halted_in row)
            (count_in (λ r. r.consecutive_losses) row)
            (count_in (λ r. r.buy_count) row)
            d.snapshot.position_concentration
            audits).0
  unfolding run_risk_diagnosis_tool
  tool-level row balance positions audits d h = ground (arith, h)

  tool-concentration :
      (row : Option (RiskRow F)) (balance : Option F) (positions : List (PositionRow F))
      (audits : ℕ) (d : Diagnosis F)
      → run_risk_diagnosis_tool row balance positions audits ≡ ok d
      → concentration_of (get_or balance (whole 0)) positions ≡ ok d.snapshot.position_concentration
  unfolding run_risk_diagnosis_tool
  tool-concentration row balance positions audits d h = ground (arith, h)

  -- Where the chatbot recommends to enter, on the diagnosis that the tool makes of the tables:
  -- trading is not halted, there are fewer than three losses in a row, fewer than eight buys that
  -- day and fewer than five audit events; where the balance and the positions together are worth
  -- more than zero, each position makes up less than 30% of them; the momentum of the hour is known
  -- and positive, RSI(14) is known and under 65, and the news are not of high risk.
  pub enter-IsCalm :
      IsOrdered F
      → (row : Option (RiskRow F)) (balance : Option F) (positions : List (PositionRow F))
        (audits : ℕ) (d : Diagnosis F) (o : Outlook F) (reason : Text)
      → run_risk_diagnosis_tool row balance positions audits ≡ ok d
      → recommend d.risk_level o ≡ ok (Recommendation.enter, reason)
      → IsCalm row (get_or balance (whole 0)) positions audits o
  enter-IsCalm or row balance positions audits d o reason made h =
      let (safe, momentum, rsi, news) = recommend-enter d.risk_level o reason h in
      let (trading, losses, buys, spread, events) =
        judge-safe (halted_in row) (count_in (λ r. r.consecutive_losses) row)
          (count_in (λ r. r.buy_count) row) d.snapshot.position_concentration audits
          (sym (tool-level row balance positions audits d made) ∙ safe) in
      record {
        trading = trading;
        losses = losses;
        buys = buys;
        spread = λ pos.
            concentration-IsSpread or (lit 30 2) (get_or balance (whole 0))
              d.snapshot.position_concentration positions pos
              (tool-concentration row balance positions audits d made) spread;
        events = events;
        momentum = momentum;
        rsi = rsi;
        news = news;
      }
