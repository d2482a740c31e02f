-- ===== src/Strategy/Grid/Total.antt =====
-- When the grid of internal/strategy/grid.go answers a bar, and when its divisions panic.
use quant_bot.Prelude.{
  ◌≡◌, refl, ◌∙◌, ◌⊎◌, inl, inr, Bool, true, false, not, ◌&&◌, ◌||◌, List, [], ◌∷◌, ◌++◌,
  Bool-cases, arith, String, length,
}
use quant_bot.Prelude.Int.{ℤ, pos, ◌<ℤ◌, ◌≤ℤ◌, ltb_ℤ, ◌+ℤ◌, wrap}
use quant_bot.Decimal.{Decimal, IsDecimal}
use quant_bot.Decimal.Order.{ne_zero_of_pos}
use quant_bot.Types.{
  ok, panic, Side, long, short, side_eq, Signal, MarketEvent, get_instrument_spec, instrument_mes,
  instrument_mgc,
}
use quant_bot.Strategy.{get_tick_size}
use quant_bot.Strategy.Grid.{
  Grid, Env, observe, grid_signal, grid_level, is_new_level, enter, enter_long, enter_short,
  long_grid, short_grid, end_near_middle, trade_grid, swing, on_market_event,
}
use quant_bot.Strategy.Grid.Levels.{observe_kept, swing_kept}
use quant_bot.Strategy.Grid.Entries.{Enters, long_grid-Enters}

module _ {ℓ} {D : Type ℓ} ⦃d : Decimal D⦄ where
  open d use {zero_dec, literal, mul, div, sub, ceil, int_part, greater_than, less_than, is_zero}

  -- The strength of a level within the number of levels is a number.
  abbrev pub HasStrength : Env D → Type ℓ
  HasStrength env =
      (level max : ℤ) → pos 0 <ℤ level → level ≤ℤ max → (s : D) × (env.strength level max ≡ ok s)

  -- The close lies far enough from the high, or from the low while the grid is not long.
  abbrev pub moves : MarketEvent D → Grid D → Bool
  moves event g =
      greater_than (sub g.swing_high event.close) g.cfg.min_move_points
      || (greater_than (sub event.close g.swing_low) g.cfg.min_move_points
          && not (side_eq g.grid_direction long))

  -- The bar divides by a spacing of zero.
  abbrev pub divides_by_zero : MarketEvent D → Grid D → Bool
  divides_by_zero event g =
      let g1 = observe event g in
      let g2 = swing g1 in
      not (ltb_ℤ (pos (length g1.highs)) g1.cfg.lookback_bars)
      && not (less_than (sub g2.swing_high g2.swing_low) g2.cfg.min_move_points)
      && is_zero (mul event.close g2.cfg.grid_spacing_pct)
      && moves event g2

  module _ (laws : IsDecimal D) where
    get_tick_size_ne_zero : (symbol : String) → is_zero (get_tick_size symbol) ≡ false
    unfolding get_tick_size get_instrument_spec instrument_mes instrument_mgc
    get_tick_size_ne_zero symbol =
        let mes = ne_zero_of_pos laws (literal 25 2) (laws.literal_pos 25 2 (omega arith)) in
        let mgc = ne_zero_of_pos laws (literal 10 2) (laws.literal_pos 10 2 (omega arith)) in
        ground (arith, mes, mgc)

    Enters_nonneg :
        (side : Side) (g : Grid D) (r : Grid D × List (Signal D))
        → pos 0 ≤ℤ g.last_grid_level
        → Enters side g r
        → pos 0 ≤ℤ r.0.last_grid_level
    Enters_nonneg side g r n (inl e) = rw e n
    Enters_nonneg side g r n (inr e) =
        let above = e.above in let positive : pos 0 ≤ℤ e.level = omega arith in rw e.state positive

    module _ (env : Env D) (event : MarketEvent D) (has : HasStrength env) where
      enter_total :
          (id : String) (side : Side) (level : ℤ) (reason : String) (g : Grid D)
          → pos 0 ≤ℤ g.last_grid_level
          → is_new_level g level ≡ true
          → (r : Grid D × List (Signal D)) × (enter id side level reason env event g ≡ ok r)
      unfolding enter is_new_level
      enter_total id side level reason g n new =
          let tick : D = get_tick_size event.symbol in
          let (s, strong) =
            has level g.cfg.max_grid_levels (ground (arith, new)) (ground (arith, new)) in
          let ticks = int_part (ceil (div (mul event.close g.cfg.stop_loss_pct) tick)) in
          (
            (
              record g { last_grid_level = level; grid_direction = side },
              grid_signal id side s ticks reason event ∷ [],
            ),
            rw (get_tick_size_ne_zero event.symbol, strong) refl,
          )

      enter_long_total :
          (move : D) (level : ℤ) (g : Grid D)
          → pos 0 ≤ℤ g.last_grid_level
          → is_new_level g level ≡ true
          → (r : Grid D × List (Signal D)) × (enter_long env event move level g ≡ ok r)
      unfolding enter_long
      enter_long_total move level g n new = enter_total _ long level _ g n new

      enter_short_total :
          (move : D) (level : ℤ) (g : Grid D)
          → pos 0 ≤ℤ g.last_grid_level
          → is_new_level g level ≡ true
          → (r : Grid D × List (Signal D)) × (enter_short env event move level g ≡ ok r)
      unfolding enter_short
      enter_short_total move level g n new = enter_total _ short level _ g n new

      module _ (spacing : D) (g : Grid D) (n : pos 0 ≤ℤ g.last_grid_level) where
        long_grid_total :
            is_zero spacing ≡ false
            → (r : Grid D × List (Signal D)) × (long_grid env event spacing g ≡ ok r)
        unfolding long_grid grid_level
        long_grid_total z =
            let drop = sub g.swing_high event.close in
            let level = wrap (int_part (div drop spacing) +ℤ pos 1) in
            elim (Bool-cases (greater_than drop g.cfg.min_move_points)) [
              | inr e ↦ ((g, []), rw e refl)
              | inl e ↦ elim (Bool-cases (is_new_level g level)) [
                | inr f ↦ ((g, []), rw (e, z, f) refl)
                | inl f ↦
                    let (r, entered) = enter_long_total drop level g n f in
                    (r, rw (e, z, f) entered)
              ]
            ]

        short_grid_total :
            is_zero spacing ≡ false
            → (r : Grid D × List (Signal D)) × (short_grid env event spacing g ≡ ok r)
        unfolding short_grid grid_level
        short_grid_total z =
            let rise = sub event.close g.swing_low in
            let level = wrap (int_part (div rise spacing) +ℤ pos 1) in
            elim (Bool-cases
              (greater_than rise g.cfg.min_move_points && not (side_eq g.grid_direction long))) [
                | inr e ↦ ((g, []), rw e refl)
                | inl e ↦ elim (Bool-cases (is_new_level g level)) [
                  | inr f ↦ ((g, []), rw (e, z, f) refl)
                  | inl f ↦
                      let (r, entered) = enter_short_total rise level g n f in
                      (r, rw (e, z, f) entered)
                ]
              ]

        zero_spacing-panic :
            is_zero spacing ≡ true → moves event g ≡ true → trade_grid env event spacing g ≡ panic
        unfolding trade_grid long_grid short_grid grid_level
        zero_spacing-panic z m =
            elim (Bool-cases (greater_than (sub g.swing_high event.close) g.cfg.min_move_points)) [
              | inl e ↦ rw (e, z) refl
              | inr e ↦ let rises = rw e at m in rw (e, rises, z) refl
            ]

        zero_spacing-ok :
            is_zero spacing ≡ true
            → moves event g ≡ false
            → trade_grid env event spacing g ≡ ok (end_near_middle event spacing g, [])
        unfolding trade_grid long_grid short_grid
        zero_spacing-ok z m =
            elim (Bool-cases (greater_than (sub g.swing_high event.close) g.cfg.min_move_points)) [
              | inl e ↦ absurd (ground (arith, e, m))
              | inr e ↦ let rises = rw e at m in rw (e, rises) refl
            ]

      trade_grid_total :
          (spacing : D) (g : Grid D)
          → pos 0 ≤ℤ g.last_grid_level
          → is_zero spacing ≡ false
          → (r : Grid D × List (Signal D)) × (trade_grid env event spacing g ≡ ok r)
      unfolding trade_grid
      trade_grid_total spacing g n z =
          let (longs, first) = long_grid_total spacing g n z in
          let n' : pos 0 ≤ℤ longs.0.last_grid_level =
            Enters_nonneg long g longs n (long_grid-Enters env event spacing g longs first) in
          let (shorts, second) = short_grid_total spacing longs.0 n' z in
          ((end_near_middle event spacing shorts.0, longs.1 ++ shorts.1), rw (first, second) refl)

      -- Where the strengths are numbers and the level is not negative, a bar panics exactly if it
      -- divides by a spacing of zero: the history is full, the range is wide enough, the product
      -- of the close and the spacing is zero, and the close lies far enough from the high, or from
      -- the low while the grid is not long. Any other bar is answered.
      pub on_market_event_total :
          (g : Grid D)
          → pos 0 ≤ℤ g.last_grid_level
          → ((divides_by_zero event g ≡ true) × (on_market_event env event g ≡ panic))
            ⊎ ((divides_by_zero event g ≡ false)
                × (r : Grid D × List (Signal D)) × (on_market_event env event g ≡ ok r))
      unfolding on_market_event
      on_market_event_total g n =
          let g1 = observe event g in
          let g2 = swing g1 in
          let spacing = mul event.close g2.cfg.grid_spacing_pct in
          let level : g2.last_grid_level ≡ g.last_grid_level =
            let (_, seen, _) = observe_kept event g in
            let (_, swung, _) = swing_kept g1 in swung ∙ seen in
          let n' : pos 0 ≤ℤ g2.last_grid_level = rw level n in
          elim (Bool-cases (ltb_ℤ (pos (length g1.highs)) g1.cfg.lookback_bars)) [
            | inl e ↦ inr (rw e refl, (g1, []), rw e refl)
            | inr e ↦
                elim (Bool-cases
                  (less_than (sub g2.swing_high g2.swing_low) g2.cfg.min_move_points)) [
                    | inl f ↦ inr (rw (e, f) refl, (g2, []), rw (e, f) refl)
                    | inr f ↦ elim (Bool-cases (is_zero spacing)) [
                      | inr z ↦
                          let (r, traded) = trade_grid_total spacing g2 n' z in
                          inr (rw (e, f, z) refl, r, rw (e, f) traded)
                      | inl z ↦ elim (Bool-cases (moves event g2)) [
                        | inl m ↦
                            inl (rw (e, f, z) m, rw (e, f) (zero_spacing-panic spacing g2 n' z m))
                        | inr m ↦ inr (
                          rw (e, f, z) m,
                          (end_near_middle event spacing g2, []),
                          rw (e, f) (zero_spacing-ok spacing g2 n' z m),
                        )
                      ]
                    ]
                  ]
          ]
