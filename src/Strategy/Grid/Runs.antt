-- ===== src/Strategy/Grid/Runs.antt =====
-- The grid of internal/strategy/grid.go over a run of bars.
use quant_bot.Prelude.{
  ℕ, suc, ◌+◌, ◌*◌, ◌≤◌, ◌≡◌, refl, ◌⊎◌, inl, inr, ◌≢◌, List, [], ◌∷◌, arith, length, if◌then◌else◌,
  ap, ◌&&◌, ltb, false,
}
use quant_bot.Prelude.Int.{ℤ, pos, ◌<ℤ◌, ◌≤ℤ◌, pos_part}
use quant_bot.Decimal.{Decimal}
use quant_bot.Types.{
  Result, ok, ◌>>=◌, >>=-eq-ok, Side, flat, long, short, side_eq, Signal, MarketEvent,
}
use quant_bot.Strategy.Grid.{Grid, Env, on_market_event}
use quant_bot.Strategy.Grid.Levels.{GridStep, sides, on_market_event-GridStep}

pos_part_mono : (a b : ℤ) → a ≤ℤ b → pos_part a ≤ pos_part b
pos_part_mono a b h = ground arith

pos_part-lt : (a b : ℤ) → pos 0 ≤ℤ a → a <ℤ b → suc (pos_part a) ≤ pos_part b
pos_part-lt a b n h = ground arith

distribute : (m f k : ℕ) → m * (f + k + 1) ≡ m * f + m * (k + 1)
distribute m f k = grind arith

not_flat_eq : (side : Side) → side ≢ flat → side_eq side flat ≡ false
not_flat_eq side h = ground (arith, h)

module _ {ℓ} {D : Type ℓ} ⦃d : Decimal D⦄ where
  -- The bars one after the other, with the state and the signals after each.
  unfoldable pub trace :
      Env D → List (MarketEvent D) → Grid D → Result (List (Grid D × List (Signal D)))
  trace env [] g = ok []
  trace env (event ∷ events) g = do
    bar ← on_market_event env event g
    rest ← trace env events bar.0
    ok (bar ∷ rest)

  abbrev pub signals_in : List (Grid D × List (Signal D)) → ℕ
  signals_in [] = 0
  signals_in ((g, signals) ∷ bars) = length signals + signals_in bars

  -- One for a bar at which the grid ends, none for another.
  unfoldable pub ends_at : Grid D → Grid D → List (Signal D) → ℕ
  ends_at before g signals =
      if side_eq g.grid_direction flat
      then (if side_eq before.grid_direction flat && ltb (length signals) 1 then 0 else 1)
      else 0

  -- The bars at which the grid ends: it is flat afterwards, and was active before or has entered.
  abbrev pub ends_in : Grid D → List (Grid D × List (Signal D)) → ℕ
  ends_in before [] = 0
  ends_in before ((g, signals) ∷ bars) = ends_at before g signals + ends_in g bars

  -- A grid that is flat stands at level 0, any other at one of its levels.
  abbrev pub IsInGrid : Grid D → Type 0
  IsInGrid g =
      ((g.last_grid_level ≡ pos 0) × (g.grid_direction ≡ flat))
      ⊎ ((pos 0 <ℤ g.last_grid_level)
          × (g.last_grid_level ≤ℤ g.cfg.max_grid_levels)
          × (g.grid_direction ≢ flat))

  level_le : (g : Grid D) → IsInGrid g → pos_part g.last_grid_level ≤ pos_part g.cfg.max_grid_levels
  level_le g (inl (zero_level, _)) = rw zero_level (omega arith)
  level_le g (inr (positive, within, _)) =
      pos_part_mono g.last_grid_level g.cfg.max_grid_levels within

  length-sides : (signals : List (Signal D)) → length (sides signals) ≡ length signals
  length-sides [] = refl
  length-sides (s ∷ signals) = ap suc (length-sides signals)

  IsInGrid-nonneg : (g : Grid D) → IsInGrid g → pos 0 ≤ℤ g.last_grid_level
  IsInGrid-nonneg g (inl (zero_level, _)) = rw zero_level (omega arith)
  IsInGrid-nonneg g (inr (positive, _, _)) = omega arith

  not_flat :
      (side : Side) (g : Grid D)
      → (side ≡ long) ⊎ ((side ≡ short) × (g.grid_direction ≢ long))
      → side ≢ flat
  not_flat side g (inl e) f = cc
  not_flat side g (inr (e, _)) f = cc

  step-IsInGrid :
      (g g' : Grid D) (signals : List (Signal D))
      → g'.cfg ≡ g.cfg
      → GridStep g.cfg.max_grid_levels g g' signals
      → IsInGrid g
      → IsInGrid g'
  step-IsInGrid g g' signals c (GridStep.wait _ l s) inv = rw (l, s, c) inv
  step-IsInGrid g g' signals c (GridStep.ends _ l s) inv = inl (l, s)
  step-IsInGrid g g' signals c (GridStep.enters side level allowed above within _ (inl (l, s)))
        inv =
      let nonneg = IsInGrid-nonneg g inv in
      let positive : pos 0 <ℤ level = omega arith in
      inr (rw l positive, rw (l, c) within, rw s (not_flat side g allowed))
  step-IsInGrid g g' signals c (GridStep.enters side level allowed above within _ (inr (l, s)))
        inv =
      inl (l, s)

  -- A grid that is flat after a signal, or that was active, has ended.
  ends_at-signal :
      (before g : Grid D) (signals : List (Signal D))
      → g.grid_direction ≡ flat
      → length signals ≡ 1
      → ends_at before g signals ≡ 1
  unfolding ends_at
  ends_at-signal before g signals f one = ground (arith, f, one)

  ends_at-active :
      (before g : Grid D) (signals : List (Signal D))
      → g.grid_direction ≡ flat
      → side_eq before.grid_direction flat ≡ false
      → ends_at before g signals ≡ 1
  unfolding ends_at
  ends_at-active before g signals f active = ground (arith, f, active)

  -- The signals of a bar are paid for by the levels that the grid climbs, or by its end.
  step_cost :
      (g g' : Grid D) (signals : List (Signal D))
      → GridStep g.cfg.max_grid_levels g g' signals
      → IsInGrid g
      → length signals + pos_part g.last_grid_level
        ≤ pos_part g'.last_grid_level + pos_part g.cfg.max_grid_levels * ends_at g g' signals
  step_cost g g' signals (GridStep.wait e l s) inv = rw (e, l) (omega arith)
  step_cost g g' signals (GridStep.ends e l s) (inl (start, f)) = rw (e, l, start) (omega arith)
  step_cost g g' signals (GridStep.ends e l s) (inr (positive, within, active)) =
      let ended = ends_at-active g g' signals s (not_flat_eq g.grid_direction active) in
      rw (ended, e, l) (omega (arith, level_le g (inr (positive, within, active))))
  step_cost g g' signals (GridStep.enters side level allowed above within sd after) inv =
      let nonneg = IsInGrid-nonneg g inv in
      let one : length signals ≡ 1 = rw (← length-sides signals) (rw sd refl) in
      let climbs : suc (pos_part g.last_grid_level) ≤ pos_part level =
        pos_part-lt g.last_grid_level level nonneg above in
      elim after [
        | inl (l, s) ↦ rw (one, l) (omega arith)
        | inr (l, s) ↦
            rw (ends_at-signal g g' signals s one, one, l)
              (omega (arith, pos_part_mono level g.cfg.max_grid_levels within))
      ]

  trace_cost :
      (env : Env D) (events : List (MarketEvent D)) (g : Grid D)
      (bars : List (Grid D × List (Signal D))) (max : ℕ)
      → pos_part g.cfg.max_grid_levels ≡ max
      → trace env events g ≡ ok bars
      → IsInGrid g
      → signals_in bars + pos_part g.last_grid_level ≤ max * (ends_in g bars + 1)
  unfolding trace
  trace_cost env [] g bars max m h inv =
      let nothing : bars ≡ [] = cc h in rw (nothing, ← m) (omega (arith, level_le g inv))
  trace_cost env (event ∷ events) g bars max m h inv =
      let ((g', signals), first, h1) = >>=-eq-ok (on_market_event env event g) _ h in
      let (rest, later, h2) = >>=-eq-ok (trace env events g') _ h1 in
      let split : bars ≡ (g', signals) ∷ rest = cc h2 in
      let (c, step) = on_market_event-GridStep env event g g' signals first in
      let ended = ends_at g g' signals in
      let m' : pos_part g'.cfg.max_grid_levels ≡ max = rw c m in
      rw split (
        omega (
          arith,
          rw m at (step_cost g g' signals step inv),
          trace_cost env events g' rest max m' later (step-IsInGrid g g' signals c step inv),
          distribute max ended (ends_in g' rest),
        ))

  -- Over any run of bars that goes through, from a grid that is flat at level 0 or active at one of its
  -- levels, the grid gives at most its number of levels in signals for each bar at which it ends,
  -- and as many after the last one.
  pub trace_signals :
      (env : Env D) (events : List (MarketEvent D)) (g : Grid D)
      (bars : List (Grid D × List (Signal D)))
      → trace env events g ≡ ok bars
      → IsInGrid g
      → signals_in bars ≤ pos_part g.cfg.max_grid_levels * (ends_in g bars + 1)
  trace_signals env events g bars h inv = omega (arith, trace_cost env events g bars _ refl h inv)
