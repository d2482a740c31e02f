-- ===== src/Backtest/Metrics.antt =====
-- internal/backtest/metrics.go: the metrics of a backtest.
pub mod Drawdown
pub mod Bounds
pub mod Ratios
use quant_bot.Prelude.{ℕ, suc, ◌-◌, Bool, List, [], ◌∷◌, ◌&&◌, if◌then◌else◌, length, ltb}
use mathlib.Core.List.{foldl}
use quant_bot.Prelude.Int.{ℤ, pos}
use quant_bot.Decimal.{Decimal}
use quant_bot.Types.{Result, ok, ◌>>=◌, Trade}
use quant_bot.Backtest.{EquityPoint, Results}

pub record Metrics {ℓ} (D : Type ℓ) : Type ℓ where
  pub trades : List (Trade D)
  pub equity_curve : List (EquityPoint D)
  pub risk_free_rate : D

unfoldable pub new_metrics {ℓ} : {D : Type ℓ} → Results D → D → Metrics D
new_metrics result risk_free_rate = record {
  trades = result.trades;
  equity_curve = result.equity_curve;
  risk_free_rate = risk_free_rate;
}

module _ {ℓ} {D : Type ℓ} ⦃d : Decimal D⦄ where
  open d use {
    zero_dec, of_int, add, sub, mul, div, abs, greater_than, less_than, is_zero, is_positive,
    is_negative,
  }

  -- A point after one of equity zero has no return.
  unfoldable pub returns_from : D → List (EquityPoint D) → List D
  returns_from prev [] = []
  returns_from prev (point ∷ points) =
      let rest = returns_from point.equity points in
      if is_zero prev then rest else div (sub point.equity prev) prev ∷ rest

  unfoldable pub calculate_returns : Metrics D → List D
  calculate_returns m = elim m.equity_curve [
    | [] ↦ []
    | point ∷ points ↦ returns_from point.equity points
  ]

  unfoldable pub mean : List D → D
  mean values =
      if ltb 0 (length values)
      then div (foldl add zero_dec values) (of_int (pos (length values)))
      else zero_dec

  -- The round of the loop of `MaxDrawdown`: the peak and the greatest drawdown so far.
  unfoldable pub next_drawdown : D × D → EquityPoint D → D × D
  next_drawdown (hwm, max_dd) point =
      let peak = if greater_than point.equity hwm then point.equity else hwm in
      let dd = div (sub peak point.equity) peak in
      (peak, if is_positive peak && greater_than dd max_dd then dd else max_dd)

  unfoldable pub max_drawdown_of : List (EquityPoint D) → D
  max_drawdown_of [] = zero_dec
  max_drawdown_of (point ∷ points) =
      (foldl next_drawdown (point.equity, zero_dec) (point ∷ points)).1

  unfoldable pub max_drawdown : Metrics D → D
  unfolding max_drawdown_of
  max_drawdown m = max_drawdown_of m.equity_curve

  -- `trade.NetPL.IsPositive()` counts.
  unfoldable pub count_win : ℕ → Trade D → ℕ
  count_win wins trade = if is_positive trade.net_pl then suc wins else wins

  unfoldable pub win_rate : Metrics D → D
  win_rate m =
      if ltb 0 (length m.trades)
      then div (of_int (pos (foldl count_win 0 m.trades))) (of_int (pos (length m.trades)))
      else zero_dec

  unfoldable pub add_gross : D × D → Trade D → D × D
  add_gross (profit, loss) trade =
      if is_positive trade.net_pl
      then (add profit trade.net_pl, loss)
      else (profit, add loss (abs trade.net_pl))

  unfoldable pub profit_factor : Metrics D → D
  profit_factor m =
      let (profit, loss) = foldl add_gross (zero_dec, zero_dec) m.trades in
      if is_zero loss then zero_dec else div profit loss

  unfoldable pub add_win : D × ℕ → Trade D → D × ℕ
  add_win (total, count) trade =
      if is_positive trade.net_pl then (add total trade.net_pl, suc count) else (total, count)

  unfoldable pub add_loss : D × ℕ → Trade D → D × ℕ
  add_loss (total, count) trade =
      if is_negative trade.net_pl then (add total trade.net_pl, suc count) else (total, count)

  unfoldable pub average : D × ℕ → D
  average (total, count) = if ltb 0 count then div total (of_int (pos count)) else zero_dec

  unfoldable pub average_win : Metrics D → D
  average_win m = average (foldl add_win (zero_dec, 0) m.trades)

  unfoldable pub average_loss : Metrics D → D
  average_loss m = average (foldl add_loss (zero_dec, 0) m.trades)

  unfoldable pub expectancy : Metrics D → D
  expectancy m =
      add (mul (win_rate m) (average_win m))
        (mul (sub (of_int (pos 1)) (win_rate m)) (average_loss m))
