-- ===== src/ExitPerformance/Buckets.antt =====
-- The buckets of `summarize_period`. A text that is only compared stands as a number, and the texts
-- that the code names have the numbers below.
use coin_pilot.Base.{
  ℕ, ◌+◌, Bool, true, false, ◌&&◌, ◌||◌, Option, none, some, List, [], ◌∷◌, ◌++◌, get_or, ◌==◌,
}
use coin_pilot.Base.Dict.{Dict, lookup, insert}
use coin_pilot.Number.{Number, ◌≺◌, lit}

abbrev pub trailing_stop_text : ℕ
trailing_stop_text = 0

abbrev pub take_profit_text : ℕ
take_profit_text = 1

abbrev pub time_limit_text : ℕ
time_limit_text = 2

abbrev pub stop_loss_text : ℕ
stop_loss_text = 3

-- `_SellSample`
pub record SellSample (F : Type 0) : Type 0 where
  pub regime : ℕ
  pub exit_reason : ℕ
  pub pnl_pct : F
  pub hold_hours : Option F
  pub post_1h : Option F
  pub post_4h : Option F
  pub post_12h : Option F
  pub post_24h : Option F

pub record Bucket (F : Type 0) : Type 0 where
  pub count : ℕ
  pub pnl : List F
  pub hold_hours : List F
  pub post_1h : List F
  pub post_4h : List F
  pub post_12h : List F
  pub post_24h : List F
  pub early_exit_24h_plus2 : ℕ
  pub time_limit_24h_minus3 : ℕ
  pub post24_count : ℕ
  pub early_exit_target_count : ℕ
  pub time_limit_target_count : ℕ

pub record Groups (F : Type 0) : Type 0 where
  pub by_reason : Dict (Bucket F)
  pub by_regime : Dict (Bucket F)
  pub by_regime_reason : Dict (Dict (Bucket F))

abbrev pub empty_bucket : {F : Type 0} → Bucket F
empty_bucket = record {
  count = 0;
  pnl = [];
  hold_hours = [];
  post_1h = [];
  post_4h = [];
  post_12h = [];
  post_24h = [];
  early_exit_24h_plus2 = 0;
  time_limit_24h_minus3 = 0;
  post24_count = 0;
  early_exit_target_count = 0;
  time_limit_target_count = 0;
}

abbrev pub no_groups : {F : Type 0} → Groups F
no_groups = record { by_reason = []; by_regime = []; by_regime_reason = [] }

-- `if x is not None: values.append(x)`
abbrev push : {F : Type 0} → List F → Option F → List F
push xs none = xs
push xs (some x) = xs ++ x ∷ []

abbrev one_if : Bool → ℕ
one_if true = 1
one_if false = 0

abbrev pub exits_early : ℕ → Bool
exits_early reason = (reason == trailing_stop_text) || (reason == take_profit_text)

abbrev there : {F : Type 0} → Option F → Bool
there none = false
there (some _) = true

module _ {F : Type 0} ⦃f : Number F⦄ where
  abbrev over_2 : Option F → Bool
  over_2 none = false
  over_2 (some x) = lit 20 1 ≺ x

  abbrev under_minus_3 : Option F → Bool
  under_minus_3 none = false
  under_minus_3 (some x) = x ≺ f.neg (lit 30 1)

  -- What one sample adds to a bucket.
  unfoldable pub add_to_bucket : SellSample F → Bucket F → Bucket F
  add_to_bucket s b = record {
    count = b.count + 1;
    pnl = b.pnl ++ s.pnl_pct ∷ [];
    hold_hours = push b.hold_hours s.hold_hours;
    post_1h = push b.post_1h s.post_1h;
    post_4h = push b.post_4h s.post_4h;
    post_12h = push b.post_12h s.post_12h;
    post_24h = push b.post_24h s.post_24h;
    post24_count = b.post24_count + one_if (there s.post_24h);
    early_exit_target_count = b.early_exit_target_count + one_if (exits_early s.exit_reason);
    early_exit_24h_plus2 =
        b.early_exit_24h_plus2 + one_if (exits_early s.exit_reason && over_2 s.post_24h);
    time_limit_target_count = b.time_limit_target_count + one_if (s.exit_reason == time_limit_text);
    time_limit_24h_minus3 =
        b.time_limit_24h_minus3
        + one_if ((s.exit_reason == time_limit_text) && under_minus_3 s.post_24h);
  }

  -- `_ensure_bucket`, and the additions to the bucket it returns.
  abbrev pub put : ℕ → SellSample F → Dict (Bucket F) → Dict (Bucket F)
  put key s m = insert key (add_to_bucket s (get_or (lookup key m) empty_bucket)) m

  unfoldable pub add_sample : SellSample F → Groups F → Groups F
  add_sample s g = record {
    by_reason = put s.exit_reason s g.by_reason;
    by_regime = put s.regime s g.by_regime;
    by_regime_reason =
        insert s.regime (put s.exit_reason s (get_or (lookup s.regime g.by_regime_reason) []))
          g.by_regime_reason;
  }

  unfoldable pub tally : List (SellSample F) → Groups F → Groups F
  tally [] g = g
  tally (s ∷ samples) g = tally samples (add_sample s g)
