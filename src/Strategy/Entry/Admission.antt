-- ===== src/Strategy/Entry/Admission.antt =====
-- When an entry is admitted, said without the order of the checks.
use coin_pilot.Base.{
  ◌≡◌, ◌↔◌, true, false, Option, none, some, List, [], arith, any, last_n, get_or,
}
use coin_pilot.Number.{Number, ◌⊖◌, ◌⊗◌, ◌≺◌, ◌≼◌, lit}
use coin_pilot.Strategy.Config.{Regime, MaCondition, EntryConfig}
use coin_pilot.Strategy.Entry.{
  Indicators, Check, Outcome, Eval, ◌>>◌, evaluate_entry_conditions, check_rsi_14, check_rsi_7,
  check_price, check_volume, check_bb_recovery, note, lowest_rsi_7, continue, verdict, finish,
}

-- The value is there and has the property; a setting that is there has it.
abbrev pub Present : {A : Type 0} → Option A → (A → Type 0) → Type 0
Present none P = ⊥
Present (some a) P = P a

abbrev pub IfSet : {A : Type 0} → Option A → (A → Type 0) → Type 0
IfSet none P = Unit
IfSet (some a) P = P a

module _ {W : Type 0} ⦃n : Number W⦄ (ind : Indicators W) (cfg : EntryConfig W) where
  abbrev pub Rsi14Ok : Type 0
  Rsi14Ok = Present ind.rsi λ r. (cfg.rsi_14_max ≺ r) ≡ false

  -- An oversold dip, then a recovery, then a bounce of the least size.
  abbrev pub Rsi7Ok : Type 0
  Rsi7Ok = Present ind.rsi_short λ r. Present ind.rsi_short_prev λ prev.
      let lowest = lowest_rsi_7 ind.rsi_short_min_lookback r prev in
      ((lowest ≺ cfg.rsi_7_trigger) ≡ true)
      × ((cfg.rsi_7_recover ≼ r) ≡ true)
      × IfSet cfg.min_rsi_7_bounce_pct (λ least. ((r ⊖ lowest) ≺ least) ≡ false)

  abbrev pub MaOk : MaCondition → W → W → Type 0
  MaOk MaCondition.crossover close ma = (close ≼ ma) ≡ false
  MaOk MaCondition.other close ma = Unit
  MaOk _ close ma = (close ≺ ma ⊗ get_or cfg.ma_proximity_pct (lit 97 2)) ≡ false

  abbrev pub PriceOk : Type 0
  PriceOk = Present ind.ma_trend λ ma. Present ind.close λ close.
      MaOk cfg.ma_condition close ma
      × (cfg.require_price_above_bb_lower ≡ true → IfSet ind.bb_lower (λ b. (close ≺ b) ≡ false))

  abbrev pub VolumeOk : Type 0
  VolumeOk =
      IfSet cfg.volume_ratio (λ least. Present ind.vol_ratio λ v. (v ≺ least) ≡ false)
      × IfSet cfg.volume_min_ratio (λ least. Present ind.vol_ratio λ v. (v ≺ least) ≡ false)
      × (cfg.volume_surge_check ≡ true
          → any (λ v. get_or cfg.volume_surge_ratio (lit 20 1) ≼ v) (last_n 3 ind.recent_vol_ratios)
            ≡ false)

  abbrev pub BbOk : Regime → Type 0
  BbOk Regime.sideways = cfg.bb_enabled ≡ true → ind.bb_touch_recovery ≡ true
  BbOk _ = Unit

  pub record Admissible (regime : Regime) : Type 0 where
    pub rsi_14 : Rsi14Ok
    pub rsi_7 : Rsi7Ok
    pub price : PriceOk
    pub volume : VolumeOk
    pub bb : BbOk regime

abbrev Goes : {W A : Type 0} → Outcome W A → Type 0
Goes (Outcome.go _ _) = Unit
Goes (Outcome.reject _ _) = ⊥

-- A check that goes on exactly when `M` holds, whatever passed before it.
record Decides {W : Type 0} (m : Eval W Unit) (M : Type 0) : Type 0 where
  at : (passed : List (Check W)) → Goes (m passed) ↔ M

module _ {W : Type 0} ⦃n : Number W⦄ (ind : Indicators W) (cfg : EntryConfig W) where
  rsi_14-Decides : Decides (check_rsi_14 ind cfg) (Rsi14Ok ind cfg)
  unfolding check_rsi_14
  rsi_14-Decides = record { at = λ passed. ground arith }

  rsi_7-Decides : Decides (check_rsi_7 ind cfg) (Rsi7Ok ind cfg)
  unfolding check_rsi_7
  rsi_7-Decides = record { at = λ passed. ground arith }

  price-Decides : Decides (check_price ind cfg) (PriceOk ind cfg)
  unfolding check_price
  price-Decides = record { at = λ passed. ground arith }

  volume-Decides : Decides (check_volume ind cfg) (VolumeOk ind cfg)
  unfolding check_volume
  volume-Decides = record { at = λ passed. ground arith }

  bb-Decides : (regime : Regime) → Decides (check_bb_recovery ind cfg regime) (BbOk ind cfg regime)
  unfolding check_bb_recovery
  bb-Decides regime = record { at = λ passed. ground arith }

-- Two checks in a row decide both conditions.
continue-Goes :
    {W A M K : Type 0} (o : Outcome W A) (f : A → Eval W Unit)
    → Goes o ↔ M
    → ((a : A) → Decides (f a) K)
    → Goes (continue o f) ↔ (M × K)
continue-Goes (Outcome.go a q) f e d = let k = (d a).at q in (λ g. (e.0 tt, k.0 g), λ h. k.1 h.1)
continue-Goes (Outcome.reject _ _) f e d = (λ g. absurd g, λ h. e.1 h.0)

both-Decides :
    {W M K : Type 0} {m k : Eval W Unit} → Decides m M → Decides k K → Decides (m >> k) (M × K)
both-Decides {m} {k} dm dk = record {
  at = λ passed. continue-Goes (m passed) (λ _. k) (dm.at passed) (λ _. dk);
}

verdict-Goes : {W : Type 0} (o : Outcome W Unit) → ((verdict o).valid ≡ true) ↔ Goes o
verdict-Goes (Outcome.go _ _) = ground arith
verdict-Goes (Outcome.reject _ _) = ground arith

finish-Decides : {W M : Type 0} {m : Eval W Unit} → Decides m M → ((finish m).valid ≡ true) ↔ M
finish-Decides {m} d =
    let v = verdict-Goes (m []) in let e = d.at [] in (λ h. e.0 (v.0 h), λ h. v.1 (e.1 h))

module _ {W : Type 0} ⦃n : Number W⦄ (ind : Indicators W) (cfg : EntryConfig W) where
  note-Decides : (c : Check W) → Decides (note c) Unit
  note-Decides c = record { at = λ passed. ground arith }

  -- The verdict is valid exactly when every condition of an entry holds: RSI(14) is present and
  -- not above its ceiling, RSI(7) dipped under its trigger, is back at the recovery level and has
  -- bounced enough, the price passes the MA filter and the lower band, the volume is in range, and
  -- in a sideways regime the band was recovered where the settings ask for it.
  pub evaluate-Admissible :
      (regime : Regime)
      → ((evaluate_entry_conditions ind cfg regime).valid ≡ true) ↔ Admissible ind cfg regime
  unfolding evaluate_entry_conditions
  evaluate-Admissible regime =
      let e = finish-Decides (
        both-Decides (note-Decides (Check.market_regime regime)) (
          both-Decides (rsi_14-Decides ind cfg) (
            both-Decides (rsi_7-Decides ind cfg) (
              both-Decides (price-Decides ind cfg)
                (both-Decides (volume-Decides ind cfg) (bb-Decides ind cfg regime)))))) in
      (
        λ h.
            let (_, (a, (b, (c, (d, f))))) = e.0 h in
            record { rsi_14 = a; rsi_7 = b; price = c; volume = d; bb = f },
        λ h. e.1 (tt, (h.rsi_14, (h.rsi_7, (h.price, (h.volume, h.bb))))),
      )
