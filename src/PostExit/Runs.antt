-- ===== src/PostExit/Runs.antt =====
-- The job run again and again on an order.
use coin_pilot.Base.{
  ℕ, ◌≤◌, ◌≡◌, refl, ◌∙◌, true, false, Bool-cases, some, ◌⊎◌, inl, inr, List, [], ◌∷◌, arith,
}
use coin_pilot.Base.Result.{Result, ok, ◌>>=◌}
use coin_pilot.Base.Ordered.{find}
use coin_pilot.Number.{Number, Convert, whole, ◌≺◌, ◌≼◌}
use coin_pilot.Number.Order.{IsOrdered}
use coin_pilot.PostExit.{
  Window, h1, h4, h12, h24, windows, same_window, due_time, Point, SellOrder, MinuteClose, Progress,
  base_time, is_complete, start_progress, track_order,
}
use coin_pilot.PostExit.Windows.{
  Filled, Advances, Advances-refl, Filled-kept, complete-Filled, Filled-complete, CanFill, Passed,
  fills-Passed,
}

-- A run at a time, over the candles there are.
abbrev pub Run : Type 0 → Type 0
Run D = ℕ × List (MinuteClose D)

module _ {D : Type 0} where
  -- One of the runs can fill the window.
  abbrev pub SomeRun : ℕ → ℕ → Window → List (Run D) → Type 0
  SomeRun symbol base w [] = ⊥
  SomeRun symbol base w (r ∷ runs) = CanFill r.0 r.1 symbol base w ⊎ SomeRun symbol base w runs

module _ {D F : Type 0} ⦃d : Number D⦄ ⦃c : Convert D F⦄ (round6 : D → D) where
  unfoldable pub track_runs : List (Run D) → SellOrder D F → Result (SellOrder D F)
  unfolding track_order
  track_runs [] order = ok order
  track_runs (r ∷ runs) order = do
    (_, next) ← track_order round6 r.0 r.1 order
    track_runs runs next

module _ {D F : Type 0} where
  -- What a run leaves of an order that was sold at a time.
  pub record Tracked (base : ℕ) (r : Run D) (order next : SellOrder D F) : Type 0 where
    pub base_kept : base_time next ≡ base_time order
    pub symbol_kept : next.symbol ≡ order.symbol
    pub price_kept : next.price ≡ order.price
    pub advances : Advances r.0 base order.post_exit_prices next.post_exit_prices
    pub fills : (w : Window) → CanFill r.0 r.1 order.symbol base w → Filled w next.post_exit_prices

module _ {D F : Type 0} ⦃d : Number D⦄ ⦃c : Convert D F⦄ (o : IsOrdered D) (round6 : D → D) where
  complete-Tracked :
      (base : ℕ) (r : Run D) (order : SellOrder D F)
      → is_complete order.post_exit_prices ≡ true
      → Tracked base r order order
  complete-Tracked base r order h = record {
    base_kept = refl;
    symbol_kept = refl;
    price_kept = refl;
    advances = Advances-refl r.0 base order.post_exit_prices;
    fills = λ w _. complete-Filled order.post_exit_prices w h;
  }

  Passed-Tracked :
      (base : ℕ) (r : Run D) (order : SellOrder D F) (p : Progress F)
      → Passed r.0 r.1 order.symbol base windows (start_progress order) p
      → Tracked base r order (record order { post_exit_prices = p.post_exit })
  Passed-Tracked base r order p a = record {
    base_kept = refl;
    symbol_kept = refl;
    price_kept = refl;
    advances = a.advances;
    fills = each;
  }
    where
      each : (w : Window) → CanFill r.0 r.1 order.symbol base w → Filled w p.post_exit
      each h1 can = a.fills.0 can
      each h4 can = a.fills.1.0 can
      each h12 can = a.fills.1.1.0 can
      each h24 can = a.fills.1.1.1.0 can

  unchanged-Tracked :
      (base : ℕ) (r : Run D) (order : SellOrder D F) (p : Progress F)
      → Passed r.0 r.1 order.symbol base windows (start_progress order) p
      → p.changed ≡ false
      → Tracked base r order order
  unchanged-Tracked base r order p a calm =
      let t = Passed-Tracked base r order p a in
      let same = (a.unchanged calm).0 in
      record {
        base_kept = refl;
        symbol_kept = refl;
        price_kept = refl;
        advances = Advances-refl r.0 base order.post_exit_prices;
        fills = λ w can. rw (← same) (t.fills w can);
      }

  -- A run never fails on an order with a positive price.
  track-Tracked :
      (base : ℕ) (r : Run D) (order : SellOrder D F)
      → base_time order ≡ some base
      → (whole 0 ≺ order.price) ≡ true
      → (p : Progress F) × (next : SellOrder D F) × (track_order round6 r.0 r.1 order
          ≡ ok (p, next))
        × Tracked base r order next
  unfolding track_order
  track-Tracked base r order b h =
      let positive : (order.price ≼ whole 0) ≡ false =
        ground (arith, h, o.lt-eq-not-le (whole 0) order.price) in
      elim (Bool-cases (is_complete order.post_exit_prices)) [
        | inl full ↦ (
          start_progress order,
          order,
          ground (arith, b, full),
          complete-Tracked base r order full,
        )
        | inr part ↦
            let (p, e, a) =
              fills-Passed o round6 r.0 r.1 order.symbol order.price base windows
                (start_progress order) h in
            elim (Bool-cases p.changed) [
              | inl new ↦ (
                p,
                record order { post_exit_prices = p.post_exit },
                ground (arith, b, part, positive, e, new),
                Passed-Tracked base r order p a,
              )
              | inr calm ↦ (
                p,
                order,
                ground (arith, b, part, positive, e, calm),
                unchanged-Tracked base r order p a calm,
              )
            ]
      ]

module _ {D F : Type 0} where
  -- A price that is there stays, and a new one was taken when its window was due, or later.
  pub record Traced (base : ℕ) (order final : SellOrder D F) : Type 0 where
    pub kept :
        (w : Window) (p : Point F)
        → find same_window w order.post_exit_prices ≡ some p
        → find same_window w final.post_exit_prices ≡ some p
    pub due :
        (w : Window) (p : Point F)
        → find same_window w final.post_exit_prices ≡ some p
        → (find same_window w order.post_exit_prices ≡ some p) ⊎ (due_time base w ≤ p.tracked_at)

  Traced-next :
      (base : ℕ) (r : Run D) (order next final : SellOrder D F)
      → Tracked base r order next
      → Traced base next final
      → Traced base order final
  Traced-next base r order next final t rest = record {
    kept = λ w p h. rest.kept w p (t.advances.kept w p h);
    due = λ w p h. elim (rest.due w p h) [
      | inr later ↦ inr later
      | inl there ↦ elim (t.advances.fresh w p there) [
        | inl old ↦ inl old
        | inr (on_time, at) ↦ inr (omega (arith, on_time, at))
      ]
    ];
  }

module _ {D F : Type 0} ⦃d : Number D⦄ ⦃c : Convert D F⦄ (o : IsOrdered D) (round6 : D → D) where
  runs_outcome :
      (runs : List (Run D)) (base : ℕ) (order : SellOrder D F)
      → base_time order ≡ some base
      → (whole 0 ≺ order.price) ≡ true
      → (final : SellOrder D F) × (track_runs round6 runs order ≡ ok final)
        × Traced base order final
        × ((w : Window)
            → Filled w order.post_exit_prices ⊎ SomeRun order.symbol base w runs
            → Filled w final.post_exit_prices)
  unfolding track_runs
  runs_outcome [] base order b h = (
    order,
    refl,
    record { kept = λ w p e. e; due = λ w p e. inl e },
    λ w s. elim s [ inl there ↦ there | inr never ↦ absurd never ],
  )
  runs_outcome (r ∷ runs) base order b h =
      let (p, next, e, t) = track-Tracked o round6 base r order b h in
      let (final, run, traced, fills) =
        runs_outcome runs base next (t.base_kept ∙ b) (rw t.price_kept h) in
      (
        final,
        rw e run,
        Traced-next base r order next final t traced,
        λ w s. fills w (elim s [
          | inl there ↦
              inl (
                Filled-kept r.0 base w order.post_exit_prices next.post_exit_prices t.advances
                  there)
          | inr (inl now_) ↦ inl (t.fills w now_)
          | inr (inr later) ↦ inr (rw t.symbol_kept later)
        ]),
      )

  -- However often the job runs on an order with a positive price, none of the runs fails, a price
  -- that is recorded is never changed, and none is recorded before its window is over.
  pub track_runs-Traced :
      (runs : List (Run D)) (base : ℕ) (order : SellOrder D F)
      → base_time order ≡ some base
      → (whole 0 ≺ order.price) ≡ true
      → (final : SellOrder D F) × (track_runs round6 runs order ≡ ok final)
        × Traced base order final
  track_runs-Traced runs base order b h =
      let (final, run, traced, _) = runs_outcome runs base order b h in (final, run, traced)

  -- An order with a positive price is complete in the end: if for each of the four windows one of
  -- the runs comes when it is over and finds a candle of the symbol within five minutes of its
  -- time, then the runs do not fail, and after them the order has the prices of all four.
  pub is_complete-track_runs :
      (runs : List (Run D)) (base : ℕ) (order : SellOrder D F)
      → base_time order ≡ some base
      → (whole 0 ≺ order.price) ≡ true
      → ((w : Window) → SomeRun order.symbol base w runs)
      → (final : SellOrder D F) × (track_runs round6 runs order ≡ ok final)
        × (is_complete final.post_exit_prices ≡ true)
  is_complete-track_runs runs base order b h some_run =
      let (final, run, _, fills) = runs_outcome runs base order b h in
      (final, run, Filled-complete final.post_exit_prices (λ w. fills w (inr (some_run w))))
