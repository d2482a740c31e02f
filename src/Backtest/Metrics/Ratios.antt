-- ===== src/Backtest/Metrics/Ratios.antt =====
-- internal/backtest/metrics.go: the ratios that are computed in floating point.
use quant_bot.Prelude.{ℕ, ◌-◌, Bool, List, [], ◌∷◌, if◌then◌else◌, length, ltb}
use mathlib.Core.List.{foldl}
use quant_bot.Prelude.Int.{pos}
use quant_bot.Decimal.{Decimal}
use quant_bot.Types.{Result, ok, ◌>>=◌}
use quant_bot.Backtest.{EquityPoint}
use quant_bot.Backtest.Metrics.{Metrics, mean, calculate_returns, max_drawdown}

-- The floating point numbers of Go and its package math, and their conversions. `new_from_float`
-- panics on an infinity and on NaN; `hours_between` is the `Hours` of the `Sub` of two times.
pub record Floats {ℓ} (D F : Type ℓ) : Type ℓ where
  pub float : ℕ → F
  pub one_hundredth : F
  pub add_float : F → F → F
  pub sub_float : F → F → F
  pub div_float : F → F → F
  pub less_float : F → F → Bool
  pub less_equal_float : F → F → Bool
  pub sqrt : F → F
  pub pow : F → F → F
  pub inexact_float : D → F
  pub new_from_float : F → Result D
  pub hours_between : ℕ → ℕ → F

module _ {ℓ} {D : Type ℓ} ⦃d : Decimal D⦄ where
  open d use {zero_dec, of_int, add, sub, mul, div, less_than, is_zero}

  unfoldable pub below : D → List D → List D
  below target [] = []
  below target (r ∷ returns) =
      let rest = below target returns in if less_than r target then r ∷ rest else rest

  unfoldable pub add_square : D → D → D → D
  add_square m total v = add total (mul (sub v m) (sub v m))

  module _ {F : Type ℓ} (floats : Floats D F) where
    open floats use {
      float, one_hundredth, add_float, sub_float, div_float, less_float, less_equal_float, sqrt,
      pow, inexact_float, new_from_float, hours_between,
    }

    -- The variance of a sample, with its root taken in floating point.
    unfoldable pub standard_deviation : List D → Result D
    standard_deviation values =
        let squares = foldl (add_square (mean values)) zero_dec values in
        let variance = inexact_float (div squares (of_int (pos (length values - 1)))) in
        if ltb (length values) 2
        then ok zero_dec
        else if less_float variance (float 0)
        then ok zero_dec
        else new_from_float (sqrt variance)

    unfoldable pub downside_deviation : List D → D → Result D
    downside_deviation returns target =
        let negative = below target returns in
        if ltb (length negative) 2 then ok zero_dec else standard_deviation negative

    -- The excess of the mean return for each unit of a deviation, annualised over 252 days.
    unfoldable pub annualized_excess : D → D → D → Result D
    annualized_excess risk_free_rate mean_return deviation =
        let excess = sub mean_return (div risk_free_rate (of_int (pos 252))) in
        new_from_float (sqrt (float 252)) >>= λ root. ok (mul (div excess deviation) root)

    unfoldable pub sharpe_ratio : Metrics D → Result D
    sharpe_ratio m =
        let returns = calculate_returns m in
        if ltb (length returns) 2
        then ok zero_dec
        else standard_deviation returns >>= λ deviation.
            if is_zero deviation
            then ok zero_dec
            else annualized_excess m.risk_free_rate (mean returns) deviation

    unfoldable pub sortino_ratio : Metrics D → Result D
    sortino_ratio m =
        let returns = calculate_returns m in
        if ltb (length returns) 2
        then ok zero_dec
        else downside_deviation returns zero_dec >>= λ deviation.
            if is_zero deviation
            then ok zero_dec
            else annualized_excess m.risk_free_rate (mean returns) deviation

    -- From the total return over the days: `(1 + total)^(1 / years) - 1`.
    unfoldable pub annualize : D → F → Result D
    annualize total days =
        let years = div_float days (float 365) in
        if less_equal_float days (float 0)
        then ok total
        else if less_float years one_hundredth
        then ok total
        else new_from_float (
            sub_float (pow (add_float (float 1) (inexact_float total)) (div_float (float 1) years))
              (float 1))

    last_point : EquityPoint D → List (EquityPoint D) → EquityPoint D
    last_point point [] = point
    last_point _ (point ∷ points) = last_point point points

    unfoldable pub annualized_return : Metrics D → Result D
    unfolding last_point
    annualized_return m = elim m.equity_curve [
      | [] ↦ ok zero_dec
      | first ∷ [] ↦ ok zero_dec
      | first ∷ (second ∷ points) ↦
          let last = last_point second points in
          if is_zero first.equity
          then ok zero_dec
          else annualize (div (sub last.equity first.equity) first.equity)
              (div_float (hours_between last.timestamp first.timestamp) (float 24))
    ]

    unfoldable pub calmar_ratio : Metrics D → Result D
    calmar_ratio m =
        if is_zero (max_drawdown m)
        then ok zero_dec
        else annualized_return m >>= λ annual. ok (div annual (max_drawdown m))
