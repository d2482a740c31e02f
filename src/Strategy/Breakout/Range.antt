-- ===== src/Strategy/Breakout/Range.antt =====
-- The range of the breakout strategy: the highest high and the lowest low.
use quant_bot.Prelude.{List, [], ◌∷◌, if◌then◌else◌, All, arith}
use quant_bot.Decimal.{Decimal, IsDecimal, ◌≼◌}
use quant_bot.Decimal.Order.{le_refl, le_trans, le_of_lt}
use quant_bot.Strategy.Breakout.{calculate_high, calculate_low, highest_from, lowest_from}

module _ {ℓ} {D : Type ℓ} ⦃d : Decimal D⦄ (laws : IsDecimal D) where
  open d use {greater_than, less_than}
  open laws use {greater_than-eq}

  greater_of : (v w : D) → let m = if greater_than w v then w else v in (v ≼ m) × (w ≼ m)
  greater_of v w =
      ground (arith, greater_than-eq w v, le_of_lt laws v w, le_refl laws v, le_refl laws w)

  less_of : (v w : D) → let m = if less_than w v then w else v in (m ≼ v) × (m ≼ w)
  less_of v w = ground (arith, le_of_lt laws w v, le_refl laws v, le_refl laws w)

  highest_from_bound :
      (v : D) (vs : List D) → (v ≼ highest_from v vs) × All (λ w. w ≼ highest_from v vs) vs
  unfolding highest_from
  highest_from_bound v [] = (le_refl laws v, tt)
  highest_from_bound v (w ∷ vs) =
      let m = if greater_than w v then w else v in
      let (old, new) = greater_of v w in
      let (first, rest) = highest_from_bound m vs in
      (
        le_trans laws v m (highest_from m vs) old first,
        (le_trans laws w m (highest_from m vs) new first, rest),
      )

  lowest_from_bound :
      (v : D) (vs : List D) → (lowest_from v vs ≼ v) × All (λ w. lowest_from v vs ≼ w) vs
  unfolding lowest_from
  lowest_from_bound v [] = (le_refl laws v, tt)
  lowest_from_bound v (w ∷ vs) =
      let m = if less_than w v then w else v in
      let (old, new) = less_of v w in
      let (first, rest) = lowest_from_bound m vs in
      (
        le_trans laws (lowest_from m vs) m v first old,
        (le_trans laws (lowest_from m vs) m w first new, rest),
      )

  pub calculate_high_bound : (vs : List D) → All (λ v. v ≼ calculate_high vs) vs
  unfolding calculate_high
  calculate_high_bound [] = tt
  calculate_high_bound (v ∷ vs) = highest_from_bound v vs

  pub calculate_low_bound : (vs : List D) → All (λ v. calculate_low vs ≼ v) vs
  unfolding calculate_low
  calculate_low_bound [] = tt
  calculate_low_bound (v ∷ vs) = lowest_from_bound v vs
