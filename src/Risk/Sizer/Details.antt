-- ===== src/Risk/Sizer/Details.antt =====
-- What `CalculateWithDetails` promises where it gives a size, and where it does not.
use quant_bot.Prelude.{◌≡◌, refl, true, false, arith}
use quant_bot.Prelude.Int.{ℤ, pos, ◌≤ℤ◌, ◌<ℤ◌}
use quant_bot.Decimal.{Decimal, IsDecimal, ◌≺◌, ◌≼◌, Fits}
use quant_bot.Decimal.Order.{sub-add}
use quant_bot.Types.{Side, long, short, flat}
use quant_bot.Risk.Sizer.{
  PositionSizer, SizeResult, calculate, calculate_with_details, tick_risk, stop_price,
}
use quant_bot.Risk.Sizer.Bounds.{calculate_bounds}

-- The stop loss lies `distance` below the entry of a long side and above that of a short one; a flat
-- side has none.
abbrev pub IsStop {ℓ} : {D : Type ℓ} ⦃d : Decimal D⦄ → Side → D → D → D → Type ℓ
IsStop ⦃d⦄ long entry distance stop = d.add stop distance ≡ entry
IsStop ⦃d⦄ short entry distance stop = stop ≡ d.add entry distance
IsStop ⦃d⦄ flat entry distance stop = stop ≡ d.zero_dec

-- What a valid result holds.
pub record IsSized {ℓ} {D : Type ℓ} ⦃d : Decimal D⦄ (p : PositionSizer D) (equity pct : D)
    (stop : ℤ) (entry : D) (side : Side) (tick_size : D) (r : SizeResult D) : Type ℓ where
  pub stop_pos : pos 0 <ℤ stop
  pub equity_pos : d.zero_dec ≺ equity
  pub pct_pos : d.zero_dec ≺ pct
  pub pct_le : pct ≼ d.literal 1 1
  pub contracts-eq : r.contracts ≡ calculate p equity pct stop
  pub contracts_pos : pos 1 ≤ℤ r.contracts
  pub risk-eq : r.risk_amount ≡ d.mul (tick_risk p stop) (d.of_int r.contracts)
  pub stops : IsStop side entry (d.mul tick_size (d.of_int stop)) r.stop_loss

module _ {ℓ} {D : Type ℓ} ⦃d : Decimal D⦄ (laws : IsDecimal D) where
  open d use {zero_dec, of_int, literal, sub, mul, add, div, less_than, floor, int_part, ulp}
  open laws use {less_than_or_equal-eq, greater_than-eq, mul_comm}

  stop_price-IsStop :
      (side : Side) (entry distance : D)
      → IsStop side entry distance (stop_price side entry distance)
  stop_price-IsStop long entry distance = sub-add laws entry distance
  stop_price-IsStop short entry distance = refl
  stop_price-IsStop flat entry distance = refl

  -- A valid result comes only from a positive stop distance, equity and risk ratio of at most 10%;
  -- it has the size that `Calculate` gives, at least one contract, the risk of that size, and a stop
  -- loss at the stop distance from the entry, below it for a long side, above it for a short one, and
  -- zero for a flat one.
  pub calculate_with_details-IsSized :
      (p : PositionSizer D) (equity pct : D) (stop : ℤ) (entry : D) (side : Side) (tick_size : D)
      → (calculate_with_details p equity pct stop entry side tick_size).valid ≡ true
      → IsSized p equity pct stop entry side tick_size
          (calculate_with_details p equity pct stop entry side tick_size)
  unfolding calculate_with_details
  calculate_with_details-IsSized p equity pct stop entry side tick_size h = ground (
    arith,
    less_than_or_equal-eq equity zero_dec,
    less_than_or_equal-eq pct zero_dec,
    greater_than-eq pct (literal 1 1),
    stop_price-IsStop side entry (mul tick_size (of_int stop)),
  )

  -- Where the value of a tick is positive and the number of contracts that the share `pct` of the
  -- equity pays for fits an int64, a valid size risks no more than that share, up to `ulp` of the
  -- risk of one contract. A result that is not valid has no contracts and no risk.
  pub calculate_with_details_risk :
      (p : PositionSizer D) (equity pct : D) (stop : ℤ) (entry : D) (side : Side) (tick_size : D)
      → zero_dec ≺ p.tick_value
      → Fits (floor (div (mul equity pct) (tick_risk p stop)))
      → let r = calculate_with_details p equity pct stop entry side tick_size in
        (r.valid ≡ true → r.risk_amount ≼ add (mul equity pct) (mul ulp (tick_risk p stop)))
        × (r.valid ≡ false → (r.contracts ≡ pos 0) × (r.risk_amount ≡ zero_dec))
  calculate_with_details_risk p equity pct stop entry side tick_size tick fits = (
    λ h.
        let s = calculate_with_details-IsSized p equity pct stop entry side tick_size h in
        rw (s.risk-eq, mul_comm (tick_risk p stop) (of_int _), s.contracts-eq)
          (calculate_bounds laws p equity pct stop s.equity_pos s.pct_pos tick s.stop_pos fits).0,
    unfold calculate_with_details in (ground arith),
  )
