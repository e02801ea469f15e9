-- ===== src/ExitPerformance/Tally.antt =====
-- The buckets hold the samples of their keys.
use coin_pilot.Base.{
  ℕ, suc, ◌++◌, eq_of_test, ◌+◌, ◌≤◌, ◌≡◌, ◌∙◌, sym, refl, Option, none, some, List, [], ◌∷◌, ◌==◌,
  get_or, length, if◌then◌else◌, arith, Option-cases, inl, inr,
}
use coin_pilot.Base.Dict.{Dict, lookup, lookup-insert}
use coin_pilot.Number.{Number}
use coin_pilot.ExitPerformance.{
  SellSample, Bucket, Groups, no_groups, empty_bucket, put, add_to_bucket, add_sample, tally,
}

length-snoc : {A : Type 0} (xs : List A) (x : A) → length (xs ++ x ∷ []) ≡ suc (length xs)
length-snoc [] x = refl
length-snoc (y ∷ xs) x = omega (arith, length-snoc xs x)

module _ {F : Type 0} ⦃f : Number F⦄ where
  -- The samples of a key.
  abbrev pub of_key : (SellSample F → ℕ) → ℕ → List (SellSample F) → List (SellSample F)
  of_key key k [] = []
  of_key key k (s ∷ samples) =
      let rest = of_key key k samples in if key s == k then s ∷ rest else rest

  -- One bucket, given its samples in order.
  abbrev pub collect : Option (Bucket F) → List (SellSample F) → Option (Bucket F)
  collect b [] = b
  collect b (s ∷ samples) = collect (some (add_to_bucket s (get_or b empty_bucket))) samples

  lookup-put :
      (key k : ℕ) (s : SellSample F) (m : Dict (Bucket F))
      → lookup k (put key s m) ≡ (
          if key == k
          then some (add_to_bucket s (get_or (lookup k m) empty_bucket))
          else lookup k m)
  lookup-put key k s m = ground (
    arith,
    eq_of_test key k,
    lookup-insert key k (add_to_bucket s (get_or (lookup key m) empty_bucket)) m,
  )

  -- After all samples, the bucket of a reason, and that of a regime, is what the samples of that
  -- reason, or of that regime, alone make of the bucket before, in their order.
  pub tally-collect :
      (samples : List (SellSample F)) (g : Groups F) (k : ℕ)
      → (lookup k (tally samples g).by_reason
          ≡ collect (lookup k g.by_reason) (of_key (λ s. s.exit_reason) k samples))
        × (lookup k (tally samples g).by_regime
            ≡ collect (lookup k g.by_regime) (of_key (λ s. s.regime) k samples))
  unfolding tally add_sample
  tally-collect [] g k = (refl, refl)
  tally-collect (s ∷ samples) g k = ground (
    arith,
    lookup-put s.exit_reason k s g.by_reason,
    lookup-put s.regime k s g.by_regime,
    tally-collect samples (add_sample s g) k,
  )

  -- The figures of a bucket fit together.
  pub record Counted (b : Bucket F) : Type 0 where
    pub pnl : length b.pnl ≡ b.count
    pub hold : length b.hold_hours ≤ b.count
    pub post24 : length b.post_24h ≡ b.post24_count
    pub post24_bound : b.post24_count ≤ b.count
    pub targets : b.early_exit_target_count + b.time_limit_target_count ≤ b.count
    pub early : b.early_exit_24h_plus2 ≤ b.early_exit_target_count
    pub over_held : b.time_limit_24h_minus3 ≤ b.time_limit_target_count

  add-Counted : (s : SellSample F) (b : Bucket F) → Counted b → Counted (add_to_bucket s b)
  unfolding add_to_bucket
  add-Counted s b h = elim (Option-cases s.hold_hours) [
    | inl new ↦ elim (Option-cases s.post_24h) [
      | inl none_ ↦ ground (arith, new, none_, length-snoc b.pnl s.pnl_pct)
      | inr (y, some_) ↦
          ground (arith, new, some_, length-snoc b.pnl s.pnl_pct, length-snoc b.post_24h y)
    ]
    | inr (x, old) ↦ elim (Option-cases s.post_24h) [
      | inl none_ ↦
          ground (arith, old, none_, length-snoc b.pnl s.pnl_pct, length-snoc b.hold_hours x)
      | inr (y, some_) ↦ ground (
        arith,
        old,
        some_,
        length-snoc b.pnl s.pnl_pct,
        length-snoc b.hold_hours x,
        length-snoc b.post_24h y,
      )
    ]
  ]

  -- A bucket that counts so many samples.
  pub record Holds (n : ℕ) (b : Bucket F) : Type 0 where
    pub number : b.count ≡ n
    pub counted : Counted b

  collect-Holds :
      (samples : List (SellSample F)) (n : ℕ) (b : Bucket F)
      → Holds n b
      → (b' : Bucket F) × (collect (some b) samples ≡ some b') × Holds (n + length samples) b'
  unfolding add_to_bucket
  collect-Holds [] n b h =
      (b, refl, record { number = omega (arith, h.number); counted = h.counted })
  collect-Holds (s ∷ samples) n b h =
      let next : Holds (suc n) (add_to_bucket s b) = record {
        number = omega (arith, h.number);
        counted = add-Counted s b h.counted;
      } in
      let (b', e, h') = collect-Holds samples (suc n) (add_to_bucket s b) next in
      (b', e, record { number = omega (arith, h'.number); counted = h'.counted })

  empty-Counted : Counted empty_bucket
  empty-Counted = record {
    pnl = refl;
    hold = omega arith;
    post24 = refl;
    post24_bound = omega arith;
    targets = omega arith;
    early = omega arith;
    over_held = omega arith;
  }

  collect_from_none :
      (samples : List (SellSample F)) (b : Bucket F)
      → collect none samples ≡ some b
      → Holds (length samples) b
  unfolding add_to_bucket
  collect_from_none [] b e = ground arith
  collect_from_none (s ∷ samples) b e =
      let first : Holds 1 (add_to_bucket s empty_bucket) = record {
        number = refl;
        counted = add-Counted s empty_bucket empty-Counted;
      } in
      let (b', e', h) = collect-Holds samples 1 (add_to_bucket s empty_bucket) first in
      ground (arith, e', h.number, h.counted)

  -- Of the buckets that `summarize_period` makes of the samples, that of a reason counts all the
  -- samples of that reason, has a profit for each, and as many prices after 24 hours as it counts;
  -- and no sample counts towards both targets, nor an early or a late exit without its target.
  pub tally-Holds :
      (samples : List (SellSample F)) (k : ℕ) (b : Bucket F)
      → lookup k (tally samples no_groups).by_reason ≡ some b
      → Holds (length (of_key (λ s. s.exit_reason) k samples)) b
  unfolding lookup
  tally-Holds samples k b e =
      collect_from_none (of_key (λ s. s.exit_reason) k samples) b
        (sym (tally-collect samples no_groups k).0 ∙ e)
