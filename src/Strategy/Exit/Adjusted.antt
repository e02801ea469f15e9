-- ===== src/Strategy/Exit/Adjusted.antt =====
-- A change of the regime never loosens the stop loss.
use coin_pilot.Base.{ℕ, ◌≡◌, ◌⊎◌, inl, inr, true, false, Option, none, some, arith}
use coin_pilot.Base.Result.{ok, Result-cases}
use coin_pilot.Number.{Number, Convert, ◌≼◌, ◌≈◌, whole}
use coin_pilot.Number.Order.{IsOrdered, le_refl, lt→le, not-lt→le}
use coin_pilot.Strategy.Config.{Regime, ExitConfig, Regimes}
use coin_pilot.Strategy.Exit.{
  Exit, pnl_ratio, stop_loss, PositionInfo, exit_config, get_adjusted_exit_config,
  check_exit_signal, decide,
}

module _ {F : Type 0} ⦃f : Number F⦄ where
  pub record Tightened (at_entry now adjusted : ExitConfig F) : Type 0 where
    pub below_entry : (adjusted.stop_loss_pct ≼ at_entry.stop_loss_pct) ≡ true
    pub below_now : (adjusted.stop_loss_pct ≼ now.stop_loss_pct) ≡ true
    pub target : adjusted.take_profit_pct ≡ now.take_profit_pct
    pub trail : adjusted.trailing_stop_pct ≡ now.trailing_stop_pct
    pub activation : adjusted.trailing_stop_activation_pct ≡ now.trailing_stop_activation_pct
    pub rsi : adjusted.rsi_overbought ≡ now.rsi_overbought
    pub rsi_profit : adjusted.rsi_exit_min_profit_pct ≡ now.rsi_exit_min_profit_pct
    pub time : adjusted.time_limit_hours ≡ now.time_limit_hours

  -- For every regime at the entry, known or not, and every current one, the adjusted stop loss is
  -- at most that of the entry regime and that of the current regime, and all the other exit
  -- settings are those of the current regime.
  pub adjusted-Tightened :
      IsOrdered F
      → (regimes : Regimes F) (entry_regime : Option Regime) (current : Regime)
      → Tightened
          (exit_config regimes entry_regime)
          (exit_config regimes (some current))
          (get_adjusted_exit_config regimes entry_regime current)
  unfolding get_adjusted_exit_config
  adjusted-Tightened o regimes entry_regime current =
      let a = (exit_config regimes entry_regime).stop_loss_pct in
      let b = (exit_config regimes (some current)).stop_loss_pct in
      ground (arith, le_refl o a, le_refl o b, lt→le o b a, not-lt→le o b a)

abbrev pub stopped : {F : Type 0} → Exit F
stopped = record { reason = some stop_loss; new_hwm = none }

module _ {D F : Type 0} ⦃d : Number D⦄ ⦃f : Number F⦄ ⦃c : Convert D F⦄ where
  -- A tighter stop loss stops whenever the looser one does.
  decide_tighter :
      IsOrdered F
      → (loose tight : ExitConfig F) (rsi : Option F) (pos : PositionInfo D) (close : D) (now : ℕ)
      → (tight.stop_loss_pct ≼ loose.stop_loss_pct) ≡ true
      → decide loose rsi pos close now ≡ ok stopped
      → decide tight rsi pos close now ≡ ok stopped
  unfolding decide
  decide_tighter o loose tight rsi pos close now h e =
      elim (Result-cases (pnl_ratio ⦃c = c⦄ close pos.avg_price)) [
        | inl (x, r) ↦ ground arith
        | inr (pnl, r) ↦ ground (
          arith,
          o.neg_anti tight.stop_loss_pct loose.stop_loss_pct h,
          o.le_trans pnl (f.neg loose.stop_loss_pct) (f.neg tight.stop_loss_pct),
        )
      ]

  -- Where the exit settings of the entry regime, or those of the current regime, taken alone stop the
  -- loss of a priced position at this close, `check_exit_signal` stops it too, whichever the two
  -- regimes are.
  pub stop-kept :
      IsOrdered F
      → (regimes : Regimes F) (current : Regime) (x : F) (rsi : Option F) (pos : PositionInfo D)
        (now : ℕ)
      → (pos.avg_price ≈ whole 0) ≡ false
      → (decide (exit_config regimes pos.regime) rsi pos (c.to_decimal x) now ≡ ok stopped)
        ⊎ (decide (exit_config regimes (some current)) rsi pos (c.to_decimal x) now ≡ ok stopped)
      → check_exit_signal regimes current (some x) rsi pos now ≡ ok stopped
  unfolding check_exit_signal
  stop-kept o regimes current x rsi pos now nz h =
      let t = adjusted-Tightened o regimes pos.regime current in
      let adjusted = get_adjusted_exit_config regimes pos.regime current in
      let close = c.to_decimal x in
      rw nz (elim h [
        | inl a ↦
            decide_tighter o (exit_config regimes pos.regime) adjusted rsi pos close now
              t.below_entry a
        | inr b ↦
            decide_tighter o (exit_config regimes (some current)) adjusted rsi pos close now
              t.below_now b
      ])
