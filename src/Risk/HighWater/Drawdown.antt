-- ===== src/Risk/HighWater/Drawdown.antt =====
-- The drawdown is a ratio between 0 and 1, falls as the equity recovers, and is what `Snapshot` shows.
use quant_bot.Prelude.{◌≡◌, arith, if◌then◌else◌}
use quant_bot.Prelude.Int.{pos}
use quant_bot.Decimal.{Decimal, IsDecimal, ◌≺◌, ◌≼◌}
use quant_bot.Decimal.Order.{
  le_refl, le_of_lt, ne_zero_of_pos, sub_nonneg, sub_le, lt_of_le_of_lt, sub_anti,
}
use quant_bot.Risk.HighWater.{HighWaterMarkTracker, drawdown, snapshot}

module _ {ℓ} {D : Type ℓ} ⦃d : Decimal D⦄ (laws : IsDecimal D) where
  open d use {zero_dec, of_int, sub, mul, add, div, less_than, greater_than_or_equal}
  open laws use {greater_than_or_equal-eq, div_mono, zero-div, div_self, of_int-one_pos}

  -- The ratio that `Drawdown` computes where the equity is below the peak, at every equity.
  drawdown-eq :
      (h : HighWaterMarkTracker D)
      → zero_dec ≺ h.peak
      → drawdown h
        ≡ (if less_than h.current h.peak then div (sub h.peak h.current) h.peak else zero_dec)
  unfolding drawdown
  drawdown-eq h p =
      ground (arith, ne_zero_of_pos laws h.peak p, greater_than_or_equal-eq h.current h.peak)

  -- With a positive peak and an equity that is not negative, the drawdown lies between 0 and 1, and
  -- it is 0 if the equity is at the peak or above it.
  drawdown_bounds :
      (h : HighWaterMarkTracker D)
      → zero_dec ≺ h.peak
      → zero_dec ≼ h.current
      → (zero_dec ≼ drawdown h)
        × (drawdown h ≼ of_int (pos 1))
        × (h.peak ≼ h.current → drawdown h ≡ zero_dec)
  drawdown_bounds h p c =
      let q = div (sub h.peak h.current) h.peak in
      let nonneg : h.current ≼ h.peak → zero_dec ≼ q = λ le.
        rw (← zero-div h.peak p)
          (div_mono zero_dec (sub h.peak h.current) h.peak p (sub_nonneg laws _ _ le)) in
      let small : q ≼ of_int (pos 1) =
        rw (← div_self h.peak p)
          (div_mono (sub h.peak h.current) h.peak h.peak p (sub_le laws _ _ c)) in
      rw (drawdown-eq h p) (
        ground (
          arith,
          nonneg,
          small,
          le_of_lt laws h.current h.peak,
          le_refl laws zero_dec,
          le_of_lt laws zero_dec (of_int (pos 1)) of_int-one_pos,
        ))

  -- With one positive peak, the drawdown does not fall when the equity falls.
  drawdown_anti :
      (h : HighWaterMarkTracker D) (lower : D)
      → zero_dec ≺ h.peak
      → lower ≼ h.current
      → drawdown h ≼ drawdown (record h { current = lower })
  drawdown_anti h lower p le =
      let h' = record h { current = lower } in
      let falls : div (sub h.peak h.current) h.peak ≼ div (sub h.peak lower) h.peak =
        div_mono _ _ h.peak p (sub_anti laws h.peak lower h.current le) in
      let nonneg : lower ≼ h.peak → zero_dec ≼ div (sub h.peak lower) h.peak = λ l.
        rw (← zero-div h.peak p)
          (div_mono zero_dec (sub h.peak lower) h.peak p (sub_nonneg laws _ _ l)) in
      rw (drawdown-eq h p, drawdown-eq h' p)
        (ground (
          arith,
          falls,
          nonneg,
          le_of_lt laws lower h.peak,
          lt_of_le_of_lt laws lower h.current h.peak le,
          le_refl laws zero_dec,
        ))

  -- `Snapshot` shows the equity, the peak and the drawdown that the other methods return.
  pub snapshot-eq : (h : HighWaterMarkTracker D) → snapshot h ≡ (h.current, h.peak, drawdown h)
  unfolding snapshot drawdown
  snapshot-eq h = ground arith
