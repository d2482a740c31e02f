-- ===== src/Tests/Backtest.antt =====
-- internal/backtest at concrete inputs: a position of one contract of MES that a bar stops out, with a
-- strategy that signals the same on every bar.
use mathlib.Core.List.{foldl}
use quant_bot.Prelude.{◌≡◌, refl, ◌⊎◌, true, false, none, some, List, [], ◌∷◌}
use quant_bot.Prelude.Int.{wrap, ℤ, pos, negsuc, ◌+ℤ◌, ◌-ℤ◌, ◌*ℤ◌}
use quant_bot.Decimal.{◌≼◌}
use quant_bot.Decimal.Units.{units, units-IsDecimal, floor_div}
use quant_bot.Types.{
  ok, err, panic, long, get_instrument_spec, instrument_mes, MarketEvent, Signal, Trade, Position,
}
use quant_bot.Prelude.Dict.{lookup, insert, erase}
use quant_bot.Risk.HighWater.{update, drawdown}
use quant_bot.Risk.Sizer as Sizer
use quant_bot.Risk.Sizer.{calculate_with_details, new_position_sizer_for_symbol}
use quant_bot.Risk.Engine as Risk
use quant_bot.Execution.Simulated as Simulated
use quant_bot.Strategy.Combined.{Strategy}
use quant_bot.Backtest.{EquityPoint, Results}
use quant_bot.Backtest.Metrics.{
  Metrics, new_metrics, max_drawdown, win_rate, profit_factor, average_win, average_loss,
}
use quant_bot.Backtest.Metrics.Drawdown.{IsFall, max_drawdown-IsFall}
use quant_bot.Backtest.Metrics.Bounds.{metrics_bounds}
use quant_bot.Backtest.Runner.{
  Runner, Outside, Arrival, closed, bar, add_net, calculate, book_exits, update_equity,
  record_equity, call_progress, progress_of, process_signals, process_signal, place, after_order,
  order_text, count_win,
}
use quant_bot.Backtest.Runner.Run.{
  trade_bar, count_bar, run_bar, run_from, run_symbol, calculate_results, time_of, conclude,
  results_with, worst_drawdown, tally, no_trades, add_trade,
}
use quant_bot.Backtest.Runner.Books.{IsBar, run_bar-IsBar}
use quant_bot.Backtest.Runner.Halt.{IsWoundDown, run_from_halted}
use quant_bot.Backtest.Runner.Finish.{calculate_results-metrics}
use quant_bot.Backtest.Runner.Total.{feed_of, run_symbol_total}
use quant_bot.Indicator.Calculator.{new_calculator, default_calculator_config}
use quant_bot.Tests.Roots.{units-HasRoots}
use quant_bot.Tests.Risk.{env, signal, event, trading}

abbrev trade_of : ℤ → Trade ℤ
trade_of net = record {
  id = "t";
  symbol = "MES";
  side = long;
  contracts = pos 1;
  entry_price = pos 500000;
  exit_price = pos 500000;
  entry_time = 1;
  exit_time = 2;
  gross_pl = net;
  commission = pos 0;
  net_pl = net;
  r_multiple = pos 0;
  signal_id = "s";
  strategy_name = "";
}

abbrev point_of : ℤ → EquityPoint ℤ
point_of equity = record { timestamp = 1; equity = equity; drawdown = pos 0 }

abbrev measured : Metrics ℤ
measured = record {
  trades = trade_of (pos 20) ∷ trade_of (negsuc 9) ∷ [];
  equity_curve = point_of (pos 100) ∷ point_of (pos 120) ∷ point_of (pos 0) ∷ [];
  risk_free_rate = pos 0;
}

max_drawdown-IsFall_example :
    ((max_drawdown measured ≡ pos 0) ⊎ IsFall [] measured.equity_curve (max_drawdown measured))
    × ((fall : ℤ) → IsFall [] measured.equity_curve fall → fall ≼ max_drawdown measured)
    × (pos 0 ≼ max_drawdown measured)
max_drawdown-IsFall_example = max_drawdown-IsFall units-IsDecimal measured

metrics_bounds_example :
    ((pos 0 ≼ win_rate measured) × (win_rate measured ≼ pos 1))
    × (pos 0 ≼ profit_factor measured)
    × (pos 0 ≼ average_win measured)
    × (average_loss measured ≼ pos 0)
metrics_bounds_example = metrics_bounds units-IsDecimal measured

abbrev pub same_every_bar : Strategy ℤ (List (Signal ℤ))
same_every_bar = record {
  on_event = λ _ _ signals. ok (signals, signals);
  name_of = λ _. "same";
  reset_state = λ signals. signals;
}

abbrev held : Position ℤ
held = record {
  id = "p";
  symbol = "MES";
  side = long;
  contracts = pos 1;
  entry_price = pos 500000;
  entry_time = 1;
  stop_loss = pos 499750;
  take_profit = pos 500750;
  unrealized_pl = pos 0;
  realized_pl = pos 0;
}

abbrev holding : Runner ℤ (List (Signal ℤ))
holding = record {
  cfg = record { initial_equity = pos 100000; start_time = 0; end_time = 0 };
  calculator = none;
  strategy = signal ∷ [];
  risk_engine = trading;
  executor = record {
    cfg = record { slippage_ticks = pos 1; commission_per_side = pos 62; fill_delay_ms = pos 0 };
    positions = ("MES", held) ∷ [];
    open_orders = [];
    used_order_ids = [];
    order_history = [];
    trades = [];
    current_time = 5;
    current_price = [];
  };
  equity_curve = [];
  high_water = pos 100000;
  has_progress = true;
  calls = [];
  bar_count = pos 0;
  total_bars = pos 1;
}

abbrev outside : Outside
outside = record {
  looks = λ _. false;
  exit_ids = record { object_uuid = "x"; order_uuid = "y" };
  now = 9;
  risk_env = λ _. env;
  order_ids = λ _. record { object_uuid = "a"; order_uuid = "b" };
}

abbrev plunge : MarketEvent ℤ
plunge = record event { low = pos 499000; close = pos 499500 }

abbrev plunged : Runner ℤ (List (Signal ℤ)) × ℤ
plunged = elim (run_bar same_every_bar outside plunge (holding, pos 100000)) [
  | ok s ↦ s
  | err _ ↦ (holding, pos 0)
  | panic ↦ (holding, pos 0)
]

plunges : run_bar same_every_bar outside plunge (holding, pos 100000) ≡ ok (plunged.0, plunged.1)
unfolding run_bar trade_bar count_bar calculate book_exits update_equity record_equity call_progress
    progress_of process_signals process_signal place after_order order_text add_net count_win
    Risk.update_equity Risk.validate_and_size Risk.get_or_create_sizer Risk.size_order
    Risk.stop_distance Risk.atr_stop Risk.check_exposure_limits Risk.symbol_margin Risk.total_margin
    Risk.add_position_margin Risk.generate_client_order_id Risk.enter_safe_mode_locked update
    drawdown Simulated.update_market Simulated.check_exits Simulated.exit_level
    Simulated.close_position Simulated.place_order Simulated.fill_order Simulated.handle_open_order
    Simulated.closed_by Simulated.slippage_amount Simulated.exit_fill Simulated.entry_fill
    Simulated.gross_profit Simulated.trade_of Simulated.fill_of Simulated.opened_by lookup insert
    erase get_instrument_spec instrument_mes calculate_with_details Sizer.calculate
    new_position_sizer_for_symbol floor_div wrap ◌*ℤ◌ ◌+ℤ◌ ◌-ℤ◌
plunges = refl

run_bar-IsBar_example : IsBar outside plunge (holding, pos 100000) (plunged.0, plunged.1)
run_bar-IsBar_example =
    run_bar-IsBar same_every_bar outside plunge holding plunged.0 (pos 100000) plunged.1 plunges

-- The kill switch is active.
abbrev halted : Runner ℤ (List (Signal ℤ))
halted = record holding { risk_engine = record trading { safe_mode = true } }

abbrev feed : List (Arrival ℤ)
feed = bar outside plunge ∷ closed ∷ []

abbrev ended : Runner ℤ (List (Signal ℤ)) × Results ℤ
ended = elim (run_from same_every_bar feed (halted, pos 100000)) [
  | some (ok r) ↦ r
  | some (err _) ↦ (halted, results_with (pos 0) halted)
  | some panic ↦ (halted, results_with (pos 0) halted)
  | none ↦ (halted, results_with (pos 0) halted)
]

ends : run_from same_every_bar feed (halted, pos 100000) ≡ some (ok (ended.0, ended.1))
unfolding run_from time_of conclude calculate_results results_with worst_drawdown tally no_trades
    add_trade run_bar trade_bar count_bar calculate book_exits update_equity record_equity
    call_progress progress_of process_signals process_signal place after_order order_text add_net
    count_win Risk.update_equity Risk.validate_and_size Risk.get_or_create_sizer Risk.size_order
    Risk.stop_distance Risk.atr_stop Risk.check_exposure_limits Risk.symbol_margin Risk.total_margin
    Risk.add_position_margin Risk.generate_client_order_id Risk.enter_safe_mode_locked update
    drawdown Simulated.update_market Simulated.check_exits Simulated.exit_level
    Simulated.close_position Simulated.place_order Simulated.fill_order Simulated.handle_open_order
    Simulated.closed_by Simulated.slippage_amount Simulated.exit_fill Simulated.entry_fill
    Simulated.gross_profit Simulated.trade_of Simulated.fill_of Simulated.opened_by lookup insert
    erase get_instrument_spec instrument_mes calculate_with_details Sizer.calculate
    new_position_sizer_for_symbol floor_div wrap ◌*ℤ◌ ◌+ℤ◌ ◌-ℤ◌
ends = refl

run_from_halted_example :
    IsWoundDown halted.executor ended.0.executor × (ended.0.risk_engine.safe_mode ≡ true)
run_from_halted_example =
    run_from_halted same_every_bar feed halted ended.0 (pos 100000) ended.1 refl ends

abbrev settled : Runner ℤ (List (Signal ℤ))
settled = record holding {
  executor = record holding.executor { trades = measured.trades };
  equity_curve = point_of (pos 120000) ∷ point_of (pos 90000) ∷ [];
}

calculate_results-metrics_example :
    (results : Results ℤ) × (calculate_results settled ≡ ok results)
    × (results.trades ≡ measured.trades)
    × (results.win_rate ≡ win_rate (new_metrics results (pos 0)))
    × (results.profit_factor ≡ profit_factor (new_metrics results (pos 0)))
    × (results.max_drawdown
        ≡ max_drawdown (record (new_metrics results (pos 0)) {
          equity_curve = point_of (pos 100000) ∷ settled.equity_curve;
        }))
    × (results.end_equity ≡ foldl add_net (pos 100000) measured.trades)
calculate_results-metrics_example =
    calculate_results-metrics units-IsDecimal settled (point_of (pos 100000)) (pos 0) refl refl

-- The same with a calculator.
abbrev calculating : Runner ℤ (List (Signal ℤ))
calculating = record holding { calculator = some (new_calculator default_calculator_config) }

run_symbol_total_example :
    (r : Runner ℤ (List (Signal ℤ))) × (results : Results ℤ) × (run_symbol same_every_bar
        (ok (feed_of ((outside, plunge) ∷ []) []))
        calculating
      ≡ some (ok (r, results)))
run_symbol_total_example =
    run_symbol_total units-IsDecimal same_every_bar (λ _ _ signals. ((signals, signals), refl))
      units-HasRoots ((outside, plunge) ∷ []) [] calculating
      (record {
        equity_pos = refl;
        stop_ne_zero = refl;
        starts = λ c e. (default_calculator_config, cc e);
      })
