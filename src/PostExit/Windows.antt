-- ===== src/PostExit/Windows.antt =====
-- What one run does to the windows of an order.
use coin_pilot.Base.{
  ℕ, suc, ◌≤◌, ◌≡◌, refl, ◌∙◌, true, false, Bool-cases, none, some, Option-cases, ◌⊎◌, inl, inr,
  List, [], ◌∷◌, ltb, arith,
}
use coin_pilot.Base.Result.{ok}
use coin_pilot.Base.Ordered.{IsSame, All, find, assign, find-assign}
use coin_pilot.Number.{Number, Convert, whole, ◌⊖◌, ◌⊘◌, ◌≺◌}
use coin_pilot.Number.Order.{IsOrdered, pos-ne}
use coin_pilot.PostExit.{
  Window, h1, h4, h12, h24, same_window, due_time, Point, MinuteClose, Progress,
  get_nearest_close_price, is_complete, fill_window, fill_windows, point_of,
}

pub same_window-IsSame : IsSame same_window
same_window-IsSame = record { reflexive = reflexive; sound = sound }
  where
    reflexive : (w : Window) → same_window w w ≡ true
    reflexive w = ground arith

    sound : (v w : Window) → same_window v w ≡ true → v ≡ w
    sound h1 h1 h = refl
    sound h4 h4 h = refl
    sound h12 h12 h = refl
    sound h24 h24 h = refl
    sound _ _ h = absurd (ground (arith, h))

module _ {F : Type 0} where
  -- The window has its price.
  abbrev pub Filled : Window → List (Window × Point F) → Type 0
  Filled w post = (p : Point F) × (find same_window w post ≡ some p)

  -- What is there stays as it is, and what is new was due, and is of this run.
  pub record Advances (now base : ℕ) (post post' : List (Window × Point F)) : Type 0 where
    pub kept :
        (w : Window) (p : Point F)
        → find same_window w post ≡ some p
        → find same_window w post' ≡ some p
    pub fresh :
        (w : Window) (p : Point F)
        → find same_window w post' ≡ some p
        → (find same_window w post ≡ some p) ⊎ ((due_time base w ≤ now) × (p.tracked_at ≡ now))

  pub Advances-refl : (now base : ℕ) (post : List (Window × Point F)) → Advances now base post post
  Advances-refl now base post = record { kept = λ w p h. h; fresh = λ w p h. inl h }

  pub Advances-trans :
      (now base : ℕ) (a b c : List (Window × Point F))
      → Advances now base a b
      → Advances now base b c
      → Advances now base a c
  Advances-trans now base a b c f g = record {
    kept = λ w p h. g.kept w p (f.kept w p h);
    fresh = λ w p h. elim (g.fresh w p h) [ inl old ↦ f.fresh w p old | inr new ↦ inr new ];
  }

  Advances-assign :
      (now base : ℕ) (w : Window) (p : Point F) (post : List (Window × Point F))
      → find same_window w post ≡ none
      → due_time base w ≤ now
      → p.tracked_at ≡ now
      → Advances now base post (assign same_window w p post)
  Advances-assign now base w p post none_ due at = record {
    kept = λ v q h. ground (
      arith,
      find-assign same_window same_window-IsSame w v p post,
      same_window-IsSame.sound v w,
    );
    fresh = λ v q h. elim (Bool-cases (same_window v w)) [
      | inl same ↦ ground (
        arith,
        find-assign same_window same_window-IsSame w v p post,
        same_window-IsSame.sound v w,
      )
      | inr other ↦ inl (ground (arith, find-assign same_window same_window-IsSame w v p post))
    ];
  }

  Filled-assign :
      (w : Window) (p : Point F) (post : List (Window × Point F))
      → Filled w (assign same_window w p post)
  Filled-assign w p post = (
    p,
    ground (
      arith,
      find-assign same_window same_window-IsSame w w p post,
      same_window-IsSame.reflexive w,
    ),
  )

  pub Filled-kept :
      (now base : ℕ) (w : Window) (post post' : List (Window × Point F))
      → Advances now base post post'
      → Filled w post
      → Filled w post'
  Filled-kept now base w post post' a (p, h) = (p, a.kept w p h)

  pub complete-Filled :
      (post : List (Window × Point F)) (w : Window) → is_complete post ≡ true → Filled w post
  unfolding is_complete
  complete-Filled post w h = elim (Option-cases (find same_window w post)) [
    | inr found ↦ found
    | inl none_ ↦ absurd (missing w none_)
  ]
    where
      missing : (v : Window) → find same_window v post ≡ none → ⊥
      missing h1 e = ground (arith, h, e)
      missing h4 e = ground (arith, h, e)
      missing h12 e = ground (arith, h, e)
      missing h24 e = ground (arith, h, e)

  pub Filled-complete :
      (post : List (Window × Point F)) → ((w : Window) → Filled w post) → is_complete post ≡ true
  unfolding is_complete
  Filled-complete post all_ = ground (arith, (all_ h1).1, (all_ h4).1, (all_ h12).1, (all_ h24).1)

true-ne-false : true ≡ false → ⊥
true-ne-false h = cc h

due-le : (now base : ℕ) (w : Window) → ltb now (due_time base w) ≡ false → due_time base w ≤ now
due-le now base w h = ground (arith, h)

not-early :
    (now base : ℕ) (w : Window) → ltb now (due_time base w) ≡ true → due_time base w ≤ now → ⊥
not-early now base w early due = ground (arith, early, due)

module _ {D : Type 0} where
  -- The window is due at the time, and has a price near its time.
  abbrev pub CanFill : ℕ → List (MinuteClose D) → ℕ → ℕ → Window → Type 0
  CanFill now candles symbol base w =
      (due_time base w ≤ now)
      × ((x : D) × (get_nearest_close_price symbol (due_time base w) candles ≡ some x))

  not-priced :
      (now : ℕ) (candles : List (MinuteClose D)) (symbol base : ℕ) (w : Window)
      → get_nearest_close_price symbol (due_time base w) candles ≡ none
      → CanFill now candles symbol base w
      → ⊥
  not-priced now candles symbol base w none_ (due, (x, e)) = ground (arith, none_, e)

module _ {D : Type 0} ⦃d : Number D⦄ where
  change-defined :
      IsOrdered D
      → (price exit_price : D) → (whole 0 ≺ exit_price) ≡ true
      → (q : D) × ((price ⊖ exit_price) ⊘ exit_price ≡ some q)
  change-defined o price exit_price h =
      o.div_defined (price ⊖ exit_price) exit_price (pos-ne o exit_price h)

module _ {D F : Type 0} where
  -- What a pass over windows leaves.
  pub record Passed (now : ℕ) (candles : List (MinuteClose D)) (symbol base : ℕ) (ws : List Window)
      (st st' : Progress F) : Type 0 where
    pub advances : Advances now base st.post_exit st'.post_exit
    pub fills : All (λ w. CanFill now candles symbol base w → Filled w st'.post_exit) ws
    pub unchanged : st'.changed ≡ false → (st'.post_exit ≡ st.post_exit) × (st.changed ≡ false)

module _ {D F : Type 0} ⦃d : Number D⦄ ⦃c : Convert D F⦄ (o : IsOrdered D) (round6 : D → D) where
  -- A window that is passed over, or that has no price.
  idle-Passed :
      (now : ℕ) (candles : List (MinuteClose D)) (symbol base : ℕ) (w : Window) (st : Progress F)
      (missed : ℕ)
      → (CanFill now candles symbol base w → Filled w st.post_exit)
      → Passed now candles symbol base (w ∷ []) st (record st { missed = missed })
  idle-Passed now candles symbol base w st missed fills = record {
    advances = Advances-refl now base st.post_exit;
    fills = (fills, tt);
    unchanged = λ e. (refl, e);
  }

  fill-Passed :
      (now : ℕ) (candles : List (MinuteClose D)) (symbol : ℕ) (exit_price : D) (base : ℕ)
      (w : Window) (st : Progress F)
      → (whole 0 ≺ exit_price) ≡ true
      → (st' : Progress F) × (fill_window round6 now candles symbol exit_price base w st ≡ ok st')
        × Passed now candles symbol base (w ∷ []) st st'
  unfolding fill_window
  fill-Passed now candles symbol exit_price base w st h =
      let idle = idle-Passed now candles symbol base w st in
      elim (Option-cases (find same_window w st.post_exit)) [
        | inr there ↦ (st, ground (arith, there.1), idle st.missed (λ _. there))
        | inl none_ ↦ elim (Bool-cases (ltb now (due_time base w))) [
          | inl early ↦ (
            st,
            ground (arith, none_, early),
            idle st.missed (λ can. absurd (not-early now base w early can.0)),
          )
          | inr due ↦
              elim (Option-cases (get_nearest_close_price symbol (due_time base w) candles)) [
                | inl no_price ↦ (
                  record st { missed = suc st.missed },
                  ground (arith, none_, due, no_price),
                  idle (suc st.missed)
                      (λ can. absurd (not-priced now candles symbol base w no_price can)),
                )
                | inr (price, found) ↦
                    let (q, e) = change-defined o price exit_price h in
                    let p : Point F = point_of round6 now exit_price price q in
                    (
                      record st {
                        post_exit = assign same_window w p st.post_exit;
                        tracked = suc st.tracked;
                        changed = true;
                      },
                      ground (arith, none_, due, found, e),
                      record {
                        advances =
                            Advances-assign now base w p st.post_exit none_ (due-le now base w due)
                              refl;
                        fills = (λ _. Filled-assign w p st.post_exit, tt);
                        unchanged = λ x. absurd (true-ne-false x);
                      },
                    )
              ]
        ]
      ]

  pub fills-Passed :
      (now : ℕ) (candles : List (MinuteClose D)) (symbol : ℕ) (exit_price : D) (base : ℕ)
      (ws : List Window) (st : Progress F)
      → (whole 0 ≺ exit_price) ≡ true
      → (st' : Progress F) × (fill_windows round6 now candles symbol exit_price base ws st ≡ ok st')
        × Passed now candles symbol base ws st st'
  unfolding fill_windows
  fills-Passed now candles symbol exit_price base [] st h = (
    st,
    refl,
    record {
      advances = Advances-refl now base st.post_exit;
      fills = tt;
      unchanged = λ e. (refl, e);
    },
  )
  fills-Passed now candles symbol exit_price base (w ∷ ws) st h =
      let (st₁, e₁, p₁) = fill-Passed now candles symbol exit_price base w st h in
      let (st₂, e₂, p₂) = fills-Passed now candles symbol exit_price base ws st₁ h in
      (
        st₂,
        rw e₁ e₂,
        record {
          advances =
              Advances-trans now base st.post_exit st₁.post_exit st₂.post_exit p₁.advances
                p₂.advances;
          fills = (
            λ can. Filled-kept now base w st₁.post_exit st₂.post_exit p₂.advances (p₁.fills.0 can),
            p₂.fills,
          );
          unchanged = λ e.
              let (same₂, calm) = p₂.unchanged e in
              let (same₁, start) = p₁.unchanged calm in (same₂ ∙ same₁, start);
        },
      )
