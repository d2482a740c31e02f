-- ===== src/Backtest/Metrics/Bounds.antt =====
-- The metrics of the closed trades of internal/backtest/metrics.go: their ranges.
use quant_bot.Prelude.{
  ℕ, suc, ◌+◌, ◌≤◌, ◌≡◌, sym, ◌∙◌, inl, inr, false, Bool-cases, List, [], ◌∷◌, arith, length, ltb,
  foldl_inv,
}
use mathlib.Core.List.{foldl}
use quant_bot.Prelude.Int.{pos, ◌<ℤ◌}
use quant_bot.Decimal.{Decimal, IsDecimal, ◌≼◌, ◌≺◌}
use quant_bot.Decimal.Order.{
  le_refl, le_of_lt, add_nonneg, add_le_add, of_int_positive, of_int_nonneg, of_int_le, lt_or_le,
  abs_nonneg, is_zero-zero,
}
use quant_bot.Types.{Trade}
use quant_bot.Backtest.Metrics.{
  Metrics, count_win, win_rate, add_gross, profit_factor, add_win, add_loss, average, average_win,
  average_loss,
}

module _ {ℓ} {D : Type ℓ} ⦃d : Decimal D⦄ where
  open d use {
    zero_dec, of_int, add, sub, mul, div, abs, less_than, is_zero, is_positive, is_negative,
  }

  module _ (laws : IsDecimal D) where
    div_nonneg : (a b : D) → zero_dec ≼ a → zero_dec ≺ b → zero_dec ≼ div a b
    div_nonneg a b h p = rw (← laws.zero-div b p) (laws.div_mono zero_dec a b p h)

    div_nonpos : (a b : D) → a ≼ zero_dec → zero_dec ≺ b → div a b ≼ zero_dec
    div_nonpos a b h p = rw (laws.zero-div b p) at (laws.div_mono a zero_dec b p h)

    count_win_le : (n : ℕ) (ts : List (Trade D)) → foldl count_win n ts ≤ n + length ts
    unfolding count_win
    count_win_le n [] = omega arith
    count_win_le n (t ∷ ts) = elim (Bool-cases (is_positive t.net_pl)) [
      | inl e ↦ rw e (omega (arith, count_win_le (suc n) ts))
      | inr e ↦ rw e (omega (arith, count_win_le n ts))
    ]

    win_rate_bounds : (m : Metrics D) → (zero_dec ≼ win_rate m) × (win_rate m ≼ of_int (pos 1))
    unfolding win_rate
    win_rate_bounds m = elim (Bool-cases (ltb 0 (length m.trades))) [
      | inr e ↦
          rw e (le_refl laws zero_dec, le_of_lt laws zero_dec (of_int (pos 1)) laws.of_int-one_pos)
      | inl e ↦
          let some : pos 0 <ℤ pos (length m.trades) = ground (arith, e) in
          let total = of_int_positive laws (pos (length m.trades)) some in
          let wins = foldl count_win 0 m.trades in
          let share =
            of_int_le laws (pos wins) (pos (length m.trades))
              (omega (arith, count_win_le 0 m.trades)) in
          rw e (
            div_nonneg (of_int (pos wins)) (of_int (pos (length m.trades)))
                (of_int_nonneg laws (pos wins) (omega arith)) total,
            rw (laws.div_self (of_int (pos (length m.trades))) total) at (
                laws.div_mono (of_int (pos wins)) (of_int (pos (length m.trades)))
                  (of_int (pos (length m.trades))) total share),
          )
    ]

    pub add_gross_nonneg :
        (s : D × D) (t : Trade D)
        → (zero_dec ≼ s.0) × (zero_dec ≼ s.1)
        → (zero_dec ≼ (add_gross s t).0) × (zero_dec ≼ (add_gross s t).1)
    unfolding add_gross
    add_gross_nonneg s t (p, l) = elim (Bool-cases (is_positive t.net_pl)) [
      | inl e ↦
          let won : zero_dec ≺ t.net_pl = sym (laws.is_positive-eq t.net_pl) ∙ e in
          rw e (add_nonneg laws s.0 t.net_pl p (le_of_lt laws zero_dec t.net_pl won), l)
      | inr e ↦ rw e (p, add_nonneg laws s.1 (abs t.net_pl) l (abs_nonneg laws t.net_pl))
    ]

    pub pos_of_ne_zero : (a : D) → zero_dec ≼ a → is_zero a ≡ false → zero_dec ≺ a
    pos_of_ne_zero a h z = elim (lt_or_le laws zero_dec a) [
      | inl p ↦ p
      | inr n ↦
          let same : a ≡ zero_dec = laws.lt_total a zero_dec n h in
          absurd (cc (same, z, is_zero-zero laws))
    ]

    profit_factor_nonneg : (m : Metrics D) → zero_dec ≼ profit_factor m
    unfolding profit_factor
    profit_factor_nonneg m =
        let (profit, loss) = foldl add_gross (zero_dec, zero_dec) m.trades in
        let (p, l) =
          foldl_inv (λ s. (zero_dec ≼ s.0) × (zero_dec ≼ s.1)) add_gross add_gross_nonneg
            (zero_dec, zero_dec) m.trades (le_refl laws zero_dec, le_refl laws zero_dec) in
        elim (Bool-cases (is_zero loss)) [
          | inl e ↦ rw e (le_refl laws zero_dec)
          | inr e ↦ rw e (div_nonneg profit loss p (pos_of_ne_zero loss l e))
        ]

    add_win_nonneg : (s : D × ℕ) (t : Trade D) → zero_dec ≼ s.0 → zero_dec ≼ (add_win s t).0
    unfolding add_win
    add_win_nonneg s t h = elim (Bool-cases (is_positive t.net_pl)) [
      | inl e ↦
          let won : zero_dec ≺ t.net_pl = sym (laws.is_positive-eq t.net_pl) ∙ e in
          rw e (add_nonneg laws s.0 t.net_pl h (le_of_lt laws zero_dec t.net_pl won))
      | inr e ↦ rw e h
    ]

    add_loss_nonpos : (s : D × ℕ) (t : Trade D) → s.0 ≼ zero_dec → (add_loss s t).0 ≼ zero_dec
    unfolding add_loss
    add_loss_nonpos s t h = elim (Bool-cases (is_negative t.net_pl)) [
      | inl e ↦
          let lost : t.net_pl ≺ zero_dec = sym (laws.is_negative-eq t.net_pl) ∙ e in
          let below =
            add_le_add laws s.0 zero_dec t.net_pl zero_dec h
              (le_of_lt laws t.net_pl zero_dec lost) in
          rw e (rw (laws.add-zero zero_dec) at below)
      | inr e ↦ rw e h
    ]

    average_sign :
        (s : D × ℕ)
        → ((zero_dec ≼ s.0) → zero_dec ≼ average s) × ((s.0 ≼ zero_dec) → average s ≼ zero_dec)
    unfolding average
    average_sign s = elim (Bool-cases (ltb 0 s.1)) [
      | inr e ↦ rw e ((λ _. le_refl laws zero_dec), (λ _. le_refl laws zero_dec))
      | inl e ↦
          let count = of_int_positive laws (pos s.1) (ground (arith, e)) in
          rw e (
            (λ h. div_nonneg s.0 (of_int (pos s.1)) h count),
            (λ h. div_nonpos s.0 (of_int (pos s.1)) h count),
          )
    ]

    -- The win rate lies between zero and one, the profit factor and the average win are not negative,
    -- and the average loss is not positive.
    pub metrics_bounds :
        (m : Metrics D)
        → ((zero_dec ≼ win_rate m) × (win_rate m ≼ of_int (pos 1)))
          × (zero_dec ≼ profit_factor m)
          × (zero_dec ≼ average_win m)
          × (average_loss m ≼ zero_dec)
    unfolding average_win average_loss
    metrics_bounds m = (
      win_rate_bounds m,
      profit_factor_nonneg m,
      (average_sign (foldl add_win (zero_dec, 0) m.trades)).0 (
          foldl_inv (λ s. zero_dec ≼ s.0) add_win add_win_nonneg (zero_dec, 0) m.trades
            (le_refl laws zero_dec)),
      (average_sign (foldl add_loss (zero_dec, 0) m.trades)).1 (
          foldl_inv (λ s. s.0 ≼ zero_dec) add_loss add_loss_nonpos (zero_dec, 0) m.trades
            (le_refl laws zero_dec)),
    )
