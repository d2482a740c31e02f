-- ===== src/Strategy/Grid/Levels.antt =====
-- The levels at which the grid of internal/strategy/grid.go enters, bar by bar.
use quant_bot.Prelude.{
  ◌≡◌, refl, ◌⊎◌, inl, inr, Bool-cases, List, [], ◌∷◌, ◌++◌, append-nil, map, arith, length, ap,
  ◌≢◌, ◌∙◌,
}
use quant_bot.Prelude.Int.{ℤ, pos, ltb_ℤ, ◌<ℤ◌, ◌≤ℤ◌}
use quant_bot.Decimal.{Decimal}
use quant_bot.Types.{ok, >>=-eq-ok, Side, flat, long, short, Signal, MarketEvent}
use quant_bot.Strategy.Grid.{
  Grid, GridConfig, Env, observe, middle, long_grid, short_grid, end_near_middle, trade_grid, swing,
  on_market_event,
}
use quant_bot.Strategy.Grid.Entries.{
  Entry, Enters, long_grid-Enters, short_grid-Enters, short_only, after_long,
}

module _ {ℓ} {D : Type ℓ} ⦃d : Decimal D⦄ where
  open d use {mul, sub, abs, ceil, int_part, greater_than, less_than}

  -- The sides of the signals.
  abbrev pub sides : List (Signal D) → List Side
  sides = map (λ s. s.direction)

  -- What a bar may do to the level and the side of a grid with `max` levels: nothing, or end the
  -- grid; or enter at a level above the last one, on the short side only if the grid is not long,
  -- after which the grid stands at that level and side, or has ended.
  pub data GridStep (max : ℤ) (g g' : Grid D) (signals : List (Signal D)) : Type ℓ where
    wait :
        signals ≡ []
        → g'.last_grid_level ≡ g.last_grid_level
        → g'.grid_direction ≡ g.grid_direction
        → GridStep max g g' signals
    ends :
        signals ≡ []
        → g'.last_grid_level ≡ pos 0
        → g'.grid_direction ≡ flat
        → GridStep max g g' signals
    enters :
        (side : Side) (level : ℤ)
        → (side ≡ long) ⊎ ((side ≡ short) × (g.grid_direction ≢ long))
        → g.last_grid_level <ℤ level
        → level ≤ℤ max
        → sides signals ≡ side ∷ []
        → ((g'.last_grid_level ≡ level) × (g'.grid_direction ≡ side))
          ⊎ ((g'.last_grid_level ≡ pos 0) × (g'.grid_direction ≡ flat))
        → GridStep max g g' signals

  end_near_middle_cases :
      (event : MarketEvent D) (spacing : D) (g : Grid D)
      → (end_near_middle event spacing g ≡ g)
        ⊎ (end_near_middle event spacing g
            ≡ record g { last_grid_level = pos 0; grid_direction = flat })
  unfolding end_near_middle
  end_near_middle_cases event spacing g =
      elim (Bool-cases (less_than (abs (sub event.close (middle g))) spacing)) [
        | inl e ↦ inr (rw e refl)
        | inr e ↦ inl (rw e refl)
      ]

  end_near_middle-cfg :
      (event : MarketEvent D) (spacing : D) (g : Grid D)
      → (end_near_middle event spacing g).cfg ≡ g.cfg
  unfolding end_near_middle
  end_near_middle-cfg event spacing g = ground arith

  wait_or_end :
      (event : MarketEvent D) (spacing : D) (g : Grid D)
      → GridStep g.cfg.max_grid_levels g (end_near_middle event spacing g) []
  wait_or_end event spacing g = elim (end_near_middle_cases event spacing g) [
    | inl e ↦
        wait refl (ap (λ (x : Grid D). x.last_grid_level) e)
          (ap (λ (x : Grid D). x.grid_direction) e)
    | inr e ↦
        ends refl (ap (λ (x : Grid D). x.last_grid_level) e)
          (ap (λ (x : Grid D). x.grid_direction) e)
  ]

  enter_then_end :
      (event : MarketEvent D) (spacing : D) (side : Side) (g : Grid D)
      (r : Grid D × List (Signal D))
      → (side ≡ long) ⊎ ((side ≡ short) × (g.grid_direction ≢ long))
      → Entry side g r
      → GridStep g.cfg.max_grid_levels g (end_near_middle event spacing r.0) r.1
  enter_then_end event spacing side g r allowed e =
      let signals : sides r.1 ≡ side ∷ [] = rw e.signals (λ i. e.on_side i ∷ []) in
      enters side e.level allowed e.above e.within signals
        (elim (end_near_middle_cases event spacing r.0) [
          | inl f ↦ inl (cc f, cc f)
          | inr f ↦ inr (cc f, cc f)
        ])

  Enters-cfg :
      (side : Side) (g : Grid D) (r : Grid D × List (Signal D)) → Enters side g r → r.0.cfg ≡ g.cfg
  Enters-cfg side g r (inl e) = ap (λ (x : Grid D × List (Signal D)). x.0.cfg) e
  Enters-cfg side g r (inr e) = ap (λ (x : Grid D). x.cfg) e.state

  trade_sides :
      (env : Env D) (event : MarketEvent D) (spacing : D) (g : Grid D)
      (longs shorts : Grid D × List (Signal D))
      → Enters long g longs
      → Enters short longs.0 shorts
      → short_grid env event spacing longs.0 ≡ ok shorts
      → GridStep g.cfg.max_grid_levels g
          (end_near_middle event spacing shorts.0)
          (longs.1 ++ shorts.1)
  trade_sides env event spacing g longs shorts (inl e) (inl f) second =
      rw (f, e) (wait_or_end event spacing g)
  trade_sides env event spacing g longs shorts (inl e) (inr f) second =
      let entry : Entry short g shorts = rw e at f in
      let sold : short_grid env event spacing g ≡ ok shorts = rw e at second in
      let allowed = short_only env event spacing g shorts sold entry in
      rw e (enter_then_end event spacing short g shorts (inr (refl, allowed)) entry)
  trade_sides env event spacing g longs shorts (inr e) _ second =
      let (state, signals) = after_long env event spacing g longs shorts e second in
      rw (state, signals, append-nil longs.1)
        (enter_then_end event spacing long g longs (inl refl) e)

  trade_grid-GridStep :
      (env : Env D) (event : MarketEvent D) (spacing : D) (g : Grid D)
      (r : Grid D × List (Signal D))
      → trade_grid env event spacing g ≡ ok r
      → (r.0.cfg ≡ g.cfg) × GridStep g.cfg.max_grid_levels g r.0 r.1
  unfolding trade_grid
  trade_grid-GridStep env event spacing g r h =
      let (longs, first, h1) = >>=-eq-ok (long_grid env event spacing g) _ h in
      let (shorts, second, h2) = >>=-eq-ok (short_grid env event spacing longs.0) _ h1 in
      let result : r ≡ (end_near_middle event spacing shorts.0, longs.1 ++ shorts.1) = cc h2 in
      let bought = long_grid-Enters env event spacing g longs first in
      let sold = short_grid-Enters env event spacing longs.0 shorts second in
      let kept = Enters-cfg short longs.0 shorts sold ∙ Enters-cfg long g longs bought in
      rw result (
        end_near_middle-cfg event spacing shorts.0 ∙ kept,
        trade_sides env event spacing g longs shorts bought sold second,
      )

  pub observe_kept :
      (event : MarketEvent D) (g : Grid D)
      → ((observe event g).cfg ≡ g.cfg)
        × ((observe event g).last_grid_level ≡ g.last_grid_level)
        × ((observe event g).grid_direction ≡ g.grid_direction)
  unfolding observe
  observe_kept event g = ground arith

  pub swing_kept :
      (g : Grid D)
      → ((swing g).cfg ≡ g.cfg)
        × ((swing g).last_grid_level ≡ g.last_grid_level)
        × ((swing g).grid_direction ≡ g.grid_direction)
  unfolding swing
  swing_kept g = (refl, refl, refl)

  GridStep-cong :
      (max max' : ℤ) (g h g' : Grid D) (signals : List (Signal D))
      → max ≡ max'
      → g.last_grid_level ≡ h.last_grid_level
      → g.grid_direction ≡ h.grid_direction
      → GridStep max g g' signals
      → GridStep max' h g' signals
  GridStep-cong max max' g h g' signals m e f (wait a b c) = wait a (b ∙ e) (c ∙ f)
  GridStep-cong max max' g h g' signals m e f (ends a b c) = ends a b c
  GridStep-cong max max' g h g' signals m e f (enters side level allowed above within s after) =
      enters side level (rw (← f) allowed) (rw (← e) above) (rw (← m) within) s after

  -- A bar that goes through keeps the configuration and is one step of the grid: the signals, the
  -- level and the side change in one of the ways of `GridStep`, with the configured number of levels.
  pub on_market_event-GridStep :
      (env : Env D) (event : MarketEvent D) (g g' : Grid D) (signals : List (Signal D))
      → on_market_event env event g ≡ ok (g', signals)
      → (g'.cfg ≡ g.cfg) × GridStep g.cfg.max_grid_levels g g' signals
  unfolding on_market_event
  on_market_event-GridStep env event g g' signals h =
      let seen = observe event g in
      let ranged = swing seen in
      let spacing = mul event.close ranged.cfg.grid_spacing_pct in
      let (c, l, s) = observe_kept event g in
      let (c', l', s') = swing_kept seen in
      elim (Bool-cases (ltb_ℤ (pos (length seen.highs)) seen.cfg.lookback_bars)) [
        | inl e ↦
            let same : ◌≡◌ {A = Grid D × List (Signal D)} (g', signals) (seen, []) =
              ground (arith, h, e) in
            (cc (same, c), wait (cc same) (cc (same, l)) (cc (same, s)))
        | inr e ↦
            elim (Bool-cases
              (less_than (sub ranged.swing_high ranged.swing_low) ranged.cfg.min_move_points)) [
                | inl f ↦
                    let same : ◌≡◌ {A = Grid D × List (Signal D)} (g', signals) (ranged, []) =
                      ground (arith, h, e, f) in
                    (cc (same, c, c'), wait (cc same) (cc (same, l, l')) (cc (same, s, s')))
                | inr f ↦
                    let (kept, step) =
                      trade_grid-GridStep env event spacing ranged (g', signals)
                        (ground (arith, h, e, f)) in
                    (
                      kept ∙ c' ∙ c,
                      GridStep-cong _ _ ranged g g' signals
                          (ap (λ (x : GridConfig D). x.max_grid_levels) (c' ∙ c)) (l' ∙ l) (s' ∙ s)
                          step,
                    )
              ]
      ]
