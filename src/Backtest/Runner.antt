-- ===== src/Backtest/Runner.antt =====
-- internal/backtest/runner.go: the runner, which leads the bars of a feed through the indicators, the
-- executor, the strategy and the risk engine.
pub mod Run
pub mod Trades
pub mod Books
pub mod Halt
pub mod Finish
pub mod Total
use quant_bot.Prelude.{
  ℕ, suc, ◌<◌, String, Bool, true, false, not, ◌&&◌, Option, none, some, List, [], ◌∷◌, ◌++◌,
  if◌then◌else◌, length, last?, ltb, ◌==◌,
}
use mathlib.Core.List.{foldl}
use quant_bot.Prelude.Int.{ℤ, pos, ◌+ℤ◌, wrap}
use quant_bot.Decimal.{Decimal}
use quant_bot.Types.{
  Result, ok, err, panic, ◌>>=◌, checked_div, context_done, Side, side_string, OrderStatus,
  MarketEvent, Signal, OrderIntent, OrderResult, Trade,
}
use quant_bot.Indicator.Calculator.{Calculator, on_bar}
use quant_bot.Risk.Engine as Risk
use quant_bot.Execution.Simulated as Simulated
use quant_bot.Strategy.Combined.{Strategy, Looks}
use quant_bot.Backtest.{EquityPoint, Results}

pub record Config {ℓ} (D : Type ℓ) : Type ℓ where
  pub initial_equity : D
  pub start_time : ℕ
  pub end_time : ℕ

pub record ProgressUpdate {ℓ} (D : Type ℓ) : Type ℓ where
  pub bar : ℤ
  pub total_bars : ℤ
  pub event : MarketEvent D
  pub equity : D
  pub trades : ℕ
  pub win_rate : D
  pub last_signal : String

-- The runner with its strategy of type `S`. `calls` are the updates for which the callback has been
-- called, where it is set.
pub record Runner {ℓ} (D S : Type ℓ) : Type ℓ where
  pub cfg : Config D
  pub calculator : Option (Calculator D)
  pub strategy : S
  pub risk_engine : Risk.Engine D
  pub executor : Simulated.SimulatedExecutor D
  pub equity_curve : List (EquityPoint D)
  pub high_water : D
  pub has_progress : Bool
  pub calls : List (ProgressUpdate D)
  pub bar_count : ℤ
  pub total_bars : ℤ

-- What a bar reads from outside: the context as the strategy sees it, the identifiers of a trade that
-- a level closes, the clock of the risk engine, and for each signal of the bar what its validation
-- and its order read.
pub record Outside : Type 0 where
  pub looks : Looks
  pub exit_ids : Simulated.Ids
  pub now : ℕ
  pub risk_env : ℕ → Risk.Env
  pub order_ids : ℕ → Simulated.Ids

-- What a round of the loop of `RunSymbol` receives.
pub data Arrival {ℓ} (D : Type ℓ) : Type ℓ where
  cancelled : Arrival D
  closed : Arrival D
  bar : Outside → MarketEvent D → Arrival D

-- The text of the side of an order that is filled.
unfoldable pub order_text : String → Side → OrderStatus → String
order_text text side OrderStatus.filled = side_string side
order_text text side _ = text

module _ {ℓ} {D : Type ℓ} ⦃d : Decimal D⦄ where
  open d use {zero_dec, of_int, add, sub, mul, div, abs, greater_than, is_positive, is_negative}

  -- What the answer to an order leaves of the text of the last signal.
  unfoldable pub after_order : String → Signal D → Result (OrderResult D) → Result String
  after_order text signal (ok result) = ok (order_text text signal.direction result.status)
  after_order text signal (err _) = ok text
  after_order text signal panic = panic

  unfoldable pub add_net : D → Trade D → D
  add_net equity trade = add equity trade.net_pl

  unfoldable pub count_win : ℕ → Trade D → ℕ
  count_win n trade = if is_positive trade.net_pl then suc n else n

  module _ {S : Type ℓ} where
    unfoldable pub new_runner :
        Config D
        → Option (Calculator D)
        → S
        → Risk.Config D
        → Simulated.SimulatedConfig D
        → Runner D S
    new_runner cfg calculator strategy risk_cfg exec_cfg = record {
      cfg = cfg;
      calculator = calculator;
      strategy = strategy;
      risk_engine = Risk.new_engine risk_cfg cfg.initial_equity;
      executor = Simulated.new_simulated_executor exec_cfg;
      equity_curve = [];
      high_water = cfg.initial_equity;
      has_progress = false;
      calls = [];
      bar_count = pos 0;
      total_bars = pos 0;
    }

    unfoldable pub set_progress_callback : Runner D S → Runner D S
    set_progress_callback r = record r { has_progress = true }

    unfoldable pub set_total_bars : ℤ → Runner D S → Runner D S
    set_total_bars total r = record r { total_bars = total }

    -- `updateEquity`, for a fill of `UpdateMarket`: the last trade is booked.
    unfoldable pub update_equity : ℕ → Runner D S × D → OrderResult D → Runner D S × D
    update_equity now (r, equity) fill = elim (last? r.executor.trades) [
      | none ↦ (r, equity)
      | some trade ↦
          let equity' = add equity trade.net_pl in
          (
            record r {
              risk_engine = Risk.update_equity now equity' r.risk_engine;
              high_water = if greater_than equity' r.high_water then equity' else r.high_water;
            },
            equity',
          )
    ]

    unfoldable pub record_equity : ℕ → D → Runner D S → Runner D S
    record_equity timestamp equity r =
        let drawdown =
          if is_positive r.high_water
          then div (sub r.high_water equity) r.high_water
          else zero_dec in
        record r {
          equity_curve =
              r.equity_curve
              ++ (record { timestamp = timestamp; equity = equity; drawdown = drawdown } ∷ []);
        }

    -- The indicators of the bar, where there is a calculator.
    unfoldable pub calculate : MarketEvent D → Runner D S → Result (Runner D S × MarketEvent D)
    calculate event r = elim r.calculator [
      | none ↦ ok (r, event)
      | some c ↦ on_bar event c >>= λ (c', event'). ok (record r { calculator = some c' }, event')
    ]

    -- The stops and targets that the bar reaches are booked.
    unfoldable pub book_exits : Outside → MarketEvent D → Runner D S × D → Runner D S × D
    book_exits outside event (r, equity) =
        let (executor, fills) = Simulated.update_market outside.exit_ids event r.executor in
        foldl (update_equity outside.now) (record r { executor = executor }, equity) fills

    unfoldable pub place :
        Simulated.Ids
        → String
        → Signal D
        → Runner D S
        → Result (OrderIntent D)
        → Result (Runner D S × String)
    place ids text signal r (ok intent) =
        let (executor, result) = Simulated.place_order ids intent r.executor in
        after_order text signal result >>= λ text'. ok (record r { executor = executor }, text')
    place ids text signal r (err _) = ok (r, text)
    place ids text signal r panic = panic

    -- A signal through the risk engine, and its order through the executor.
    unfoldable pub process_signal :
        Risk.Env
        → Simulated.Ids
        → MarketEvent D
        → Signal D
        → Runner D S × String
        → Result (Runner D S × String)
    process_signal env ids event signal (r, text) =
        let (engine, intent) = Risk.validate_and_size env signal event r.risk_engine in
        place ids text signal (record r { risk_engine = engine }) intent

    unfoldable pub process_signals :
        ℕ
        → Outside
        → MarketEvent D
        → List (Signal D)
        → Runner D S × String
        → Result (Runner D S × String)
    process_signals k outside event [] r = ok r
    process_signals k outside event (signal ∷ signals) r =
        process_signal (outside.risk_env k) (outside.order_ids k) event signal r
        >>= process_signals (suc k) outside event signals

    unfoldable pub progress_of : MarketEvent D → String → Runner D S → ProgressUpdate D
    progress_of event text r =
        let trades = r.executor.trades in
        let share = div (of_int (pos (foldl count_win 0 trades))) (of_int (pos (length trades))) in
        record {
          bar = r.bar_count;
          total_bars = r.total_bars;
          event = event;
          equity = foldl add_net r.cfg.initial_equity trades;
          trades = length trades;
          win_rate = if ltb 0 (length trades) then mul share (of_int (pos 100)) else zero_dec;
          last_signal = text;
        }

    unfoldable pub call_progress : MarketEvent D → String → Runner D S → Runner D S
    call_progress event text r =
        if r.has_progress
        then record r { calls = r.calls ++ (progress_of event text r ∷ []) }
        else r
