-- ===== src/Risk/HighWater.antt =====
-- internal/risk/highwater.go: the peak of the equity, and the drawdown from it.
pub mod Peak
pub mod Drawdown
use quant_bot.Prelude.{Bool, true, false, ◌||◌, List, [], ◌∷◌, if◌then◌else◌}
use quant_bot.Decimal.{Decimal}

pub record HighWaterMarkTracker {ℓ} (D : Type ℓ) : Type ℓ where
  pub peak : D
  pub current : D

module _ {ℓ} {D : Type ℓ} ⦃d : Decimal D⦄ where
  open d use {zero_dec, sub, div, greater_than, greater_than_or_equal, is_zero}

  unfoldable pub new_tracker : D → HighWaterMarkTracker D
  new_tracker initial = record { peak = initial; current = initial }

  -- `Update`; the second part tells whether a new peak was set.
  unfoldable pub update : D → HighWaterMarkTracker D → HighWaterMarkTracker D × Bool
  update equity h =
      let h' = record h { current = equity } in
      if greater_than equity h.peak then (record h' { peak = equity }, true) else (h', false)

  unfoldable pub drawdown : HighWaterMarkTracker D → D
  drawdown h =
      if is_zero h.peak
      then zero_dec
      else if greater_than_or_equal h.current h.peak
      then zero_dec
      else div (sub h.peak h.current) h.peak

  unfoldable pub reset : D → HighWaterMarkTracker D → HighWaterMarkTracker D
  reset equity h = record h { peak = equity; current = equity }

  -- The current equity, the peak and the drawdown.
  unfoldable pub snapshot : HighWaterMarkTracker D → D × D × D
  snapshot h = (
    h.current,
    h.peak,
    if is_zero h.peak || greater_than_or_equal h.current h.peak
        then zero_dec
        else div (sub h.peak h.current) h.peak,
  )

  -- A sequence of calls of `Update`.
  unfoldable pub updates : List D → HighWaterMarkTracker D → HighWaterMarkTracker D
  updates [] h = h
  updates (equity ∷ rest) h = updates rest (update equity h).0
