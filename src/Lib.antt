-- ===== src/Lib.antt =====
-- Verification of the trading bot of this repository: the risk engine, the simulated executor of
-- the backtest, the paper broker, the technical indicators, the strategies, the backtest, the
-- trading engine, the feeds and the configuration. They compute with exact decimals, hold their
-- state behind a lock, and are driven from outside by one call after the other, so a component is
-- a record here, a method is a function that returns the new record, and a run is a list of
-- calls.
--
-- The parts and how they interact: a strategy turns a bar with its indicators (pkg/indicator,
-- internal/observer/calculator.go) into a signal; the risk engine (internal/risk) checks the kill
-- switch, sizes the position and checks the exposure limits, and returns an order intent or an
-- error; an executor or a broker (internal/execution/simulated.go,
-- internal/broker/paper/paper.go) fills the intent, keeps the positions and closes them at their
-- stops; the new equity goes back to the risk engine, which trips the kill switch when the
-- drawdown reaches its limit. The backtest runner (internal/backtest) and the trading engine
-- (internal/engine) drive this circle, the one over the bars of a feed (internal/observer) and
-- the other over those of a broker. The records that they exchange are those of internal/types.
--
-- Prelude: Boolean tests, lists measured by the native numbers, the program's `int` as a signed
--   number with its wrap-around at 64 bits (`wrap`), and maps keyed by strings as association
--   lists. A loop over a map is modelled as a loop over that list.
--
-- Decimal: github.com/shopspring/decimal, which is not part of the repository, is a parameter:
--   its operations are the record `Decimal`, and what its documentation promises the record
--   `IsDecimal`. Addition, subtraction and multiplication are exact; a quotient is rounded to 16
--   places, whose unit is `ulp`. Decimal/Units.antt gives an instance on whole units, on which
--   the tests run.
--
-- Types: internal/types/types.go and internal/types/errors.go. A time is a number of nanoseconds,
--   a failing call returns an `Error`, and a division by zero is the result `panic`.
--
-- Risk: Risk/HighWater.antt is internal/risk/highwater.go (Update, Drawdown, Snapshot, Reset),
--   Risk/Sizer.antt is internal/risk/sizer.go (Calculate, CalculateWithDetails, MaxContracts,
--   AdjustForMaxSize), Risk/Engine.antt is internal/risk/engine.go (ValidateAndSize as
--   `validate_and_size`, with its second half as `size_order`; UpdateEquity, UpdatePosition,
--   ExitSafeMode, checkExposureLimits, getOrCreateSizer). The clock and the random identifiers
--   that a call reads are its argument `Env`.
--
-- Execution: Execution/Simulated.antt is internal/execution/simulated.go (UpdateMarket,
--   checkExits, closePosition, PlaceOrder, handleOpenOrder, handleCloseOrder, CancelOrder,
--   GetPosition, Reset). Random identifiers are the argument `Ids`. The handler of fills runs in
--   goroutines of its own and only receives results: it is left out. Execution/Intents.antt joins
--   it with the risk engine.
--
-- Broker: Broker.antt holds the records of internal/broker/broker.go and Broker/Contract.antt its
--   contracts, with the calendar that GetFrontMonthExpiry takes from the package time;
--   Broker/Paper is internal/broker/paper/paper.go: Account the state, the account and the
--   subscriptions, Positions the marking of positions and updatePosition, Orders PlaceOrder,
--   simulateFill and CancelOrder. The goroutine that fills an order is an entry of `running`, and
--   finishing it is a step of its own, so a run may put any calls between an order and its fill.
--   Disconnect is modelled up to its wait for these goroutines. A channel of market data is the
--   list of the events in its buffer of 100.
--
-- Indicator: Indicator/Window.antt is the rolling window that pkg/indicator/sma.go and
--   pkg/indicator/atr.go keep, Indicator/Sma.antt, Indicator/Atr.antt and Indicator/StdDev.antt
--   are the three indicators, and Indicator/Calculator.antt is internal/observer/calculator.go. A
--   division by a period of zero, or by a guess of zero, panics, so the indicators and all that
--   update them return a `Result`. The square root of stddev.go is a loop of at most 100 rounds:
--   `newton` is structural on the rounds that are left, so its fuel is the loop's own bound.
--
-- Strategy: Strategy.antt is the builder of signals of internal/strategy/strategy.go,
--   Strategy/Breakout.antt is internal/strategy/breakout.go: OnMarketEvent is `on_market_event`,
--   which is `remember`, then `signals_for` with the range, its levels and the two signals. The
--   identifiers of the signals and the printing of a level are the argument `Env`.
--   Strategy/MeanReversion.antt is internal/strategy/meanrev.go in the same way, with the
--   `Result` of its indicators, Strategy/Grid.antt is internal/strategy/grid.go, whose
--   OnMarketEvent divides without a check and so returns a `Result`, and Strategy/Combined.antt
--   is the interface of a strategy with MultiStrategy; Strategy/Combined/Instances.antt puts the
--   strategies behind it.
--
-- Backtest: Backtest.antt has the records of the results; Backtest/Metrics.antt, with Ratios
--   below it for what is computed in floating point, is internal/backtest/metrics.go;
--   Backtest/Runner.antt is a bar of internal/backtest/runner.go and Backtest/Runner/Run.antt its
--   RunSymbol, calculateResults and Reset. The runner composes the calculator, the executor, the
--   risk engine and a strategy behind the interface. What the select of its loop receives is a
--   list of `Arrival`; a list that ends before the feed is closed leaves the run waiting, which
--   is `none`. The calls of the progress callback are kept in the order in which they are made.
--
-- Engine: Engine.antt is internal/engine/engine.go, with the interface of
--   internal/broker/broker.go as the record `Broker` that a broker fills; Engine/Brokers.antt
--   puts the paper broker behind it. Start, Stop, processMarketEvent and updateEquity are
--   `start`, `stop` with `stop_finishes` for what follows its wait, `process_market_event` and
--   `update_equity`. The trading loop and the loop of the equity updates take their steps in any
--   order: a run is a list of `Step`, each of which takes an event or a tick whole.
--
-- Observer: Observer.antt is internal/observer/feed.go, with its interfaces as records;
--   Observer/Feeds.antt is internal/observer/backtest_feed.go. A channel is the list of the
--   events that are sent to it; where a select may take the context that is done instead, an
--   argument says at which event it does. The CSV reader, the parsers of numbers and times and
--   the file system are not part of the repository: what they give is a list of `Read`, the
--   argument `Parsers` and a function from paths.
--
-- Config: Config.antt is internal/config/config.go. Validate returns the configuration with its
--   defaults and the messages of its error, which is none where there are no messages. What reads
--   the file, expands the environment and parses the YAML is an argument of `load`, and floating
--   point is the argument `Floats`.
--
-- Tests: the results below at concrete inputs, and runs of the definitions.
--
-- Not modelled: logging; how the loops of the engine interleave within an event or a tick; the
-- joining of alerts and the daily summary of internal/alerting; and what is input and output:
-- cmd/bot, the database, the alerting channels, the metrics server, the terminal interface and
-- the connection to Interactive Brokers.
pub mod Prelude
pub mod Decimal
pub mod Types
pub mod Risk
pub mod Execution
pub mod Broker
pub mod Indicator
pub mod Strategy
pub mod Backtest
pub mod Engine
pub mod Observer
pub mod Config
mod Tests
