-- ===== src/PostExit.antt =====
-- src/analytics/post_exit_tracker.py: the prices after a sale. A time is a number of microseconds.
pub mod Windows
pub mod Runs
mod Tests
use coin_pilot.Base.{
  ℕ, suc, ◌+◌, ◌-◌, ◌*◌, ◌==◌, Bool, true, false, not, ◌&&◌, ◌||◌, Option, none, some, List, [],
  ◌∷◌, length, is_none, all, leb, ltb, if◌then◌else◌,
}
use coin_pilot.Base.Result.{Result, ok, ◌>>=◌, or_raise, zero_division}
use coin_pilot.Base.Ordered.{find, assign}
use coin_pilot.Number.{Number, Convert, whole, ◌⊖◌, ◌⊗◌, ◌⊘◌, ◌≼◌}

-- The keys of TRACK_WINDOWS.
pub data Window : Type 0 where
  h1 h4 h12 h24 : Window

abbrev pub windows : List Window
windows = h1 ∷ h4 ∷ h12 ∷ h24 ∷ []

abbrev pub hours : Window → ℕ
hours h1 = 1
hours h4 = 4
hours h12 = 12
hours h24 = 24

abbrev pub same_window : Window → Window → Bool
same_window v w = hours v == hours w

abbrev pub due_time : ℕ → Window → ℕ
due_time base w = base + hours w * 3_600_000_000

pub record Point (F : Type 0) : Type 0 where
  pub price : F
  pub change_pct : F
  pub tracked_at : ℕ

-- A filled sale, the newest 300 of which the query gives.
pub record SellOrder (D F : Type 0) : Type 0 where
  pub symbol : ℕ
  pub price : D
  pub executed_at : Option ℕ
  pub created_at : Option ℕ
  pub post_exit_prices : List (Window × Point F)

-- A candle of a minute: its symbol, time and close.
pub record MinuteClose (D : Type 0) : Type 0 where
  pub symbol : ℕ
  pub timestamp : ℕ
  pub close_price : D

-- What the loop over the windows of an order changes.
pub record Progress (F : Type 0) : Type 0 where
  pub post_exit : List (Window × Point F)
  pub tracked : ℕ
  pub missed : ℕ
  pub changed : Bool

pub record TrackStats : Type 0 where
  pub orders_scanned : ℕ
  pub orders_updated : ℕ
  pub points_tracked : ℕ
  pub points_missed : ℕ

module _ {D F : Type 0} where
  abbrev pub base_time : SellOrder D F → Option ℕ
  base_time order = elim order.executed_at [ none ↦ order.created_at | some t ↦ some t ]

  abbrev pub start_progress : SellOrder D F → Progress F
  start_progress order = record {
    post_exit = order.post_exit_prices;
    tracked = 0;
    missed = 0;
    changed = false;
  }

module _ {F : Type 0} where
  unfoldable pub is_complete : List (Window × Point F) → Bool
  unfolding find
  is_complete post_exit = all (λ w. not (is_none (find same_window w post_exit))) windows

abbrev distance : ℕ → ℕ → ℕ
distance a b = (a - b) + (b - a)

module _ {D : Type 0} where
  abbrev near : ℕ → ℕ → MinuteClose D → Bool
  near symbol target c = (c.symbol == symbol) && leb (distance c.timestamp target) 300_000_000

  abbrev pub nearest_from : ℕ → ℕ → Option (MinuteClose D) → List (MinuteClose D) → Option D
  nearest_from symbol target none [] = none
  nearest_from symbol target (some best) [] = some best.close_price
  nearest_from symbol target none (c ∷ rest) =
      nearest_from symbol target (if near symbol target c then some c else none) rest
  nearest_from symbol target (some best) (c ∷ rest) =
      nearest_from symbol target
        (if near symbol target c
            && ltb (distance c.timestamp target) (distance best.timestamp target)
          then some c
          else some best)
        rest

  -- The close that is nearest to the time, of those within five minutes of it.
  unfoldable pub get_nearest_close_price : ℕ → ℕ → List (MinuteClose D) → Option D
  get_nearest_close_price symbol target candles = nearest_from symbol target none candles

module _ {D F : Type 0} ⦃d : Number D⦄ ⦃c : Convert D F⦄ (round6 : D → D) where
  abbrev pub point_of : ℕ → D → D → D → Point F
  point_of now exit_price price ratio = record {
    price = c.to_float price;
    change_pct = c.to_float (round6 (ratio ⊗ whole 100));
    tracked_at = now;
  }

  abbrev fill_at : ℕ → D → Window → Option D → Progress F → Result (Progress F)
  fill_at now exit_price w none st = ok (record st { missed = suc st.missed })
  fill_at now exit_price w (some price) st = do
    ratio ← or_raise ((price ⊖ exit_price) ⊘ exit_price) zero_division
    ok (record st {
      post_exit = assign same_window w (point_of now exit_price price ratio) st.post_exit;
      tracked = suc st.tracked;
      changed = true;
    })

  -- One pass of the loop: a window that is there, or not due, is passed over.
  unfoldable pub fill_window :
      ℕ → List (MinuteClose D) → ℕ → D → ℕ → Window → Progress F → Result (Progress F)
  unfolding get_nearest_close_price find assign
  fill_window now candles symbol exit_price base w st =
      let filled =
        fill_at now exit_price w (get_nearest_close_price symbol (due_time base w) candles) st in
      if not (is_none (find same_window w st.post_exit))
      then ok st
      else if ltb now (due_time base w)
      then ok st
      else filled

  unfoldable pub fill_windows :
      ℕ → List (MinuteClose D) → ℕ → D → ℕ → List Window → Progress F → Result (Progress F)
  unfolding fill_window
  fill_windows now candles symbol exit_price base [] st = ok st
  fill_windows now candles symbol exit_price base (w ∷ ws) st = do
    next ← fill_window now candles symbol exit_price base w st
    fill_windows now candles symbol exit_price base ws next

  abbrev track_from : ℕ → List (MinuteClose D) → Option ℕ → SellOrder D F → Result (Progress F)
  track_from now candles none order = ok (start_progress order)
  track_from now candles (some base) order =
      if is_complete order.post_exit_prices || (order.price ≼ whole 0)
      then ok (start_progress order)
      else fill_windows now candles order.symbol order.price base windows (start_progress order)

  -- The body of the loop over the orders, with the order as it leaves it.
  unfoldable pub track_order :
      ℕ → List (MinuteClose D) → SellOrder D F → Result (Progress F × SellOrder D F)
  unfolding is_complete fill_windows
  track_order now candles order = do
    p ← track_from now candles (base_time order) order
    ok (p, if p.changed then record order { post_exit_prices = p.post_exit } else order)

  abbrev add_stats : Progress F → TrackStats → TrackStats
  add_stats p s = record {
    orders_scanned = suc s.orders_scanned;
    orders_updated = if p.changed then suc s.orders_updated else s.orders_updated;
    points_tracked = p.tracked + s.points_tracked;
    points_missed = p.missed + s.points_missed;
  }

  unfoldable pub track_post_exit_prices :
      ℕ → List (MinuteClose D) → List (SellOrder D F) → Result (TrackStats × List (SellOrder D F))
  unfolding track_order
  track_post_exit_prices now candles [] =
      ok (
        record { orders_scanned = 0; orders_updated = 0; points_tracked = 0; points_missed = 0 },
        [],
      )
  track_post_exit_prices now candles (order ∷ orders) = do
    (p, order') ← track_order now candles order
    (stats, orders') ← track_post_exit_prices now candles orders
    ok (add_stats p stats, order' ∷ orders')
