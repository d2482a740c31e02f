-- ===== src/Backtest.antt =====
-- internal/backtest: the results of a backtest.
pub mod Metrics
pub mod Runner
use quant_bot.Prelude.{ℕ, List}
use quant_bot.Types.{Trade}

pub record EquityPoint {ℓ} (D : Type ℓ) : Type ℓ where
  pub timestamp : ℕ
  pub equity : D
  pub drawdown : D

-- `Result` of the backtest. The numbers of trades are lengths of lists.
pub record Results {ℓ} (D : Type ℓ) : Type ℓ where
  pub start_equity : D
  pub end_equity : D
  pub total_return : D
  pub max_drawdown : D
  pub total_trades : ℕ
  pub winning_trades : ℕ
  pub losing_trades : ℕ
  pub win_rate : D
  pub profit_factor : D
  pub sharpe_ratio : D
  pub trades : List (Trade D)
  pub equity_curve : List (EquityPoint D)
