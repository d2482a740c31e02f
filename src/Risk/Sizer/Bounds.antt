-- ===== src/Risk/Sizer/Bounds.antt =====
-- The size that `Calculate` gives: never negative, and as large as the capital at risk allows.
use quant_bot.Prelude.{◌≡◌, arith}
use quant_bot.Prelude.Int.{ℤ, pos, negsuc, ◌+ℤ◌, ◌≤ℤ◌, ◌<ℤ◌, int_laws}
use quant_bot.Decimal.{Decimal, IsDecimal, ◌≺◌, ◌≼◌, Fits}
use quant_bot.Decimal.Order.{
  le_trans, le_of_lt, ne_zero_of_pos, lt_of_le_of_lt, mul_le, mul_lt, of_int_le, of_int_positive,
}
use quant_bot.Risk.Sizer.{PositionSizer, calculate, tick_risk}

module _ {ℓ} {D : Type ℓ} ⦃d : Decimal D⦄ where
  -- On every branch the number of contracts is not negative.
  pub calculate_nonneg :
      (p : PositionSizer D) (equity pct : D) (stop : ℤ) → pos 0 ≤ℤ calculate p equity pct stop
  unfolding calculate
  calculate_nonneg p equity pct stop = ground arith

module _ {ℓ} {D : Type ℓ} ⦃d : Decimal D⦄ (laws : IsDecimal D) where
  open d use {zero_dec, of_int, sub, mul, add, div, less_than, floor, int_part, ulp}
  open laws use {
    less_than_or_equal-eq, div_mono, zero-div, mul_pos, div-mul_le, le-div-mul, floor_le, lt-floor,
    int_part-floor, of_int-add, of_int-zero, add-lt,
  }

  -- A number whose rounding down fits an `int64` lies between two integers.
  pub int_part-floor_bounds :
      (q : D)
      → Fits (floor q)
      → let n = int_part (floor q) in (of_int n ≼ q) × (q ≺ of_int (n +ℤ pos 1))
  int_part-floor_bounds q fits =
      let n = int_part (floor q) in
      let e : of_int n ≡ floor q = int_part-floor q fits in
      (rw e (floor_le q), rw (of_int-add n (pos 1), e) (lt-floor q))

  pub nonneg_of_int : (n : ℤ) → zero_dec ≺ of_int (n +ℤ pos 1) → pos 0 ≤ℤ n
  nonneg_of_int (pos n) h = omega arith
  nonneg_of_int (negsuc n) h =
      let below : of_int (negsuc n +ℤ pos 1) ≼ of_int (pos 0) =
        of_int_le laws (negsuc n +ℤ pos 1) (pos 0) (omega int_laws) in
      cc (below, of_int-zero)

  module _ (p : PositionSizer D) (equity pct : D) (stop : ℤ) (equity_pos : zero_dec ≺ equity)
      (pct_pos : zero_dec ≺ pct) (tick_value_pos : zero_dec ≺ p.tick_value)
      (stop_pos : pos 0 <ℤ stop) where
    tick_risk_pos : zero_dec ≺ tick_risk p stop
    tick_risk_pos = mul_pos _ _ (of_int_positive laws stop stop_pos) tick_value_pos

    quotient : D
    quotient = div (mul equity pct) (tick_risk p stop)

    quotient_nonneg : zero_dec ≼ quotient
    unfolding quotient
    quotient_nonneg = rw (← zero-div (tick_risk p stop) tick_risk_pos) (
        div_mono zero_dec (mul equity pct) (tick_risk p stop) tick_risk_pos
          (le_of_lt laws _ _ (mul_pos equity pct equity_pos pct_pos)))

    calculate-eq :
        pos 0 ≤ℤ int_part (floor quotient) → calculate p equity pct stop ≡ int_part (floor quotient)
    unfolding calculate quotient
    calculate-eq h = ground (
      arith,
      less_than_or_equal-eq equity zero_dec,
      less_than_or_equal-eq pct zero_dec,
      ne_zero_of_pos laws (tick_risk p stop) tick_risk_pos,
    )

    -- With positive equity, risk ratio, tick value and stop distance, and a quotient that an `int64`
    -- holds, the contracts of `Calculate` risk no more than the capital at risk, and one contract
    -- more would risk more than it; both up to `ulp` of the risk of one contract, the rounding of
    -- the division.
    pub calculate_bounds :
        Fits (floor (div (mul equity pct) (tick_risk p stop)))
        → let n = calculate p equity pct stop in
          let capital = mul equity pct in
          let slack = mul ulp (tick_risk p stop) in
          (mul (of_int n) (tick_risk p stop) ≼ add capital slack)
          × (capital ≺ add (mul (of_int (n +ℤ pos 1)) (tick_risk p stop)) slack)
    unfolding quotient
    calculate_bounds fits =
        let risk = tick_risk p stop in
        let (below, above) = int_part-floor_bounds quotient fits in
        let nonneg : pos 0 ≤ℤ int_part (floor quotient) =
          nonneg_of_int (int_part (floor quotient))
            (lt_of_le_of_lt laws _ _ _ quotient_nonneg above) in
        rw (calculate-eq nonneg) (
          le_trans laws _ _ _ (mul_le laws _ _ risk below (le_of_lt laws _ _ tick_risk_pos))
              (div-mul_le (mul equity pct) risk tick_risk_pos),
          lt_of_le_of_lt laws _ _ _ (le-div-mul (mul equity pct) risk tick_risk_pos)
              (add-lt _ _ _ (mul_lt laws _ _ risk above tick_risk_pos)),
        )
