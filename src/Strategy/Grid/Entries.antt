-- ===== src/Strategy/Grid/Entries.antt =====
-- The entries of the grid of internal/strategy/grid.go, on either side.
use quant_bot.Prelude.{
  ◌≡◌, refl, ◌⊎◌, inl, inr, String, not, ◌&&◌, true, false, Bool-cases, List, [], ◌∷◌, arith, ◌≢◌,
}
use quant_bot.Prelude.Int.{ℤ, ◌<ℤ◌, ◌≤ℤ◌}
use quant_bot.Decimal.{Decimal}
use quant_bot.Types.{ok, checked_div, Result-cases, Side, long, short, side_eq, Signal, MarketEvent}
use quant_bot.Strategy.{get_tick_size}
use quant_bot.Strategy.Grid.{
  Grid, Env, grid_signal, grid_level, is_new_level, enter, enter_long, enter_short, long_grid,
  short_grid,
}

module _ {ℓ} {D : Type ℓ} ⦃d : Decimal D⦄ where
  open d use {mul, sub, abs, ceil, int_part, greater_than, less_than}

  -- One entry of the grid `g` on the side `side`, above the last level and within their number.
  pub record Entry (side : Side) (g : Grid D) (r : Grid D × List (Signal D)) : Type ℓ where
    pub level : ℤ
    pub signal : Signal D
    pub above : g.last_grid_level <ℤ level
    pub within : level ≤ℤ g.cfg.max_grid_levels
    pub on_side : signal.direction ≡ side
    pub state : r.0 ≡ record g { last_grid_level = level; grid_direction = side }
    pub signals : r.1 ≡ signal ∷ []

  enter-Entry :
      (id : String) (side : Side) (level : ℤ) (reason : String) (env : Env D)
      (event : MarketEvent D) (g : Grid D) (r : Grid D × List (Signal D))
      → is_new_level g level ≡ true
      → enter id side level reason env event g ≡ ok r
      → Entry side g r
  unfolding enter is_new_level
  enter-Entry id side level reason env event g r new h =
      elim (Result-cases
        (checked_div (mul event.close g.cfg.stop_loss_pct) (get_tick_size event.symbol))) [
          | inl (ticks, e) ↦ elim (Result-cases (env.strength level g.cfg.max_grid_levels)) [
            | inl (strength, f) ↦ record {
              level = level;
              signal = grid_signal id side strength (int_part (ceil ticks)) reason event;
              above = ground arith;
              within = ground arith;
              on_side = unfold grid_signal in refl;
              state = ground (arith, h, e, f);
              signals = ground (arith, h, e, f);
            }
            | inr (inl (reason, f)) ↦ absurd (ground (arith, h, e, f))
            | inr (inr f) ↦ absurd (ground (arith, h, e, f))
          ]
          | inr (inl (reason, e)) ↦ absurd (ground (arith, h, e))
          | inr (inr e) ↦ absurd (ground (arith, h, e))
        ]

  enter_long-Entry :
      (env : Env D) (event : MarketEvent D) (move : D) (level : ℤ) (g : Grid D)
      (r : Grid D × List (Signal D))
      → is_new_level g level ≡ true
      → enter_long env event move level g ≡ ok r
      → Entry long g r
  unfolding enter_long
  enter_long-Entry env event move level g r new h = enter-Entry _ long level _ env event g r new h

  enter_short-Entry :
      (env : Env D) (event : MarketEvent D) (move : D) (level : ℤ) (g : Grid D)
      (r : Grid D × List (Signal D))
      → is_new_level g level ≡ true
      → enter_short env event move level g ≡ ok r
      → Entry short g r
  unfolding enter_short
  enter_short-Entry env event move level g r new h = enter-Entry _ short level _ env event g r new h

  abbrev pub Enters : Side → Grid D → Grid D × List (Signal D) → Type ℓ
  Enters side g r = (r ≡ (g, [])) ⊎ Entry side g r

  pub long_grid-Enters :
      (env : Env D) (event : MarketEvent D) (spacing : D) (g : Grid D)
      (r : Grid D × List (Signal D))
      → long_grid env event spacing g ≡ ok r
      → Enters long g r
  unfolding long_grid
  long_grid-Enters env event spacing g r h =
      let drop = sub g.swing_high event.close in
      elim (Bool-cases (greater_than drop g.cfg.min_move_points)) [
        | inr e ↦ inl (ground (arith, h, e))
        | inl e ↦ elim (Result-cases (grid_level drop spacing)) [
          | inl (level, f) ↦ elim (Bool-cases (is_new_level g level)) [
            | inl new ↦
                inr (enter_long-Entry env event drop level g r new (ground (arith, h, e, f, new)))
            | inr old ↦ inl (ground (arith, h, e, f, old))
          ]
          | inr (inl (reason, f)) ↦ absurd (ground (arith, h, e, f))
          | inr (inr f) ↦ absurd (ground (arith, h, e, f))
        ]
      ]

  pub short_grid-Enters :
      (env : Env D) (event : MarketEvent D) (spacing : D) (g : Grid D)
      (r : Grid D × List (Signal D))
      → short_grid env event spacing g ≡ ok r
      → Enters short g r
  unfolding short_grid
  short_grid-Enters env event spacing g r h =
      let rise = sub event.close g.swing_low in
      elim (Bool-cases
        (greater_than rise g.cfg.min_move_points && not (side_eq g.grid_direction long))) [
          | inr e ↦ inl (ground (arith, h, e))
          | inl e ↦ elim (Result-cases (grid_level rise spacing)) [
            | inl (level, f) ↦ elim (Bool-cases (is_new_level g level)) [
              | inl new ↦
                  inr
                    (enter_short-Entry env event rise level g r new (ground (arith, h, e, f, new)))
              | inr old ↦ inl (ground (arith, h, e, f, old))
            ]
            | inr (inl (reason, f)) ↦ absurd (ground (arith, h, e, f))
            | inr (inr f) ↦ absurd (ground (arith, h, e, f))
          ]
        ]

  -- While the grid is long nothing is sold.
  short_grid_long :
      (env : Env D) (event : MarketEvent D) (spacing : D) (g : Grid D)
      → g.grid_direction ≡ long
      → short_grid env event spacing g ≡ ok (g, [])
  unfolding short_grid
  short_grid_long env event spacing g e =
      let closed : (greater_than (sub event.close g.swing_low) g.cfg.min_move_points
            && not (side_eq g.grid_direction long))
          ≡ false =
        rw e (ground arith) in
      rw closed refl

  pub short_only :
      (env : Env D) (event : MarketEvent D) (spacing : D) (g : Grid D)
      (r : Grid D × List (Signal D))
      → short_grid env event spacing g ≡ ok r
      → Entry short g r
      → g.grid_direction ≢ long
  short_only env event spacing g r h e l =
      let none_sold = short_grid_long env event spacing g l in absurd (cc (h, none_sold, e.signals))

  pub after_long :
      (env : Env D) (event : MarketEvent D) (spacing : D) (g : Grid D)
      (r r' : Grid D × List (Signal D))
      → Entry long g r
      → short_grid env event spacing r.0 ≡ ok r'
      → (r'.0 ≡ r.0) × (r'.1 ≡ [])
  after_long env event spacing g r r' e h =
      let nothing = short_grid_long env event spacing r.0 (cc e.state) in
      (cc (h, nothing), cc (h, nothing))
