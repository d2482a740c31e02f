-- ===== src/Tests/Engine.antt =====
-- internal/engine at concrete inputs: the engine with the paper broker, in which one order is open.
use quant_bot.Prelude.{◌≡◌, refl, true, false, List, [], ◌∷◌}
use quant_bot.Prelude.Int.{pos, ℤ, ◌+ℤ◌}
use quant_bot.Prelude.Dict.{lookup}
use quant_bot.Decimal.Units.{units, floor_div}
use quant_bot.Risk.HighWater.{drawdown, update}
use quant_bot.Types.{ok, err, panic, Signal}
use quant_bot.Risk.Engine as Risk
use quant_bot.Broker.Paper.Account as Paper
use quant_bot.Broker.Paper.Orders as Orders
use quant_bot.Indicator.Sma as Sma
use quant_bot.Indicator.Atr as Atr
use quant_bot.Indicator.StdDev.{new_std_dev, update_std_dev}
use quant_bot.Indicator.Calculator.{default_calculator_config, new_calculator, on_bar}
use quant_bot.Engine.{
  Engine, Outside, Step, starts, receives, tick, trading_returns, updating_returns, stops,
  stop_returns, new_engine, start, stop, stop_finishes, process_market_event, process_signals,
  process_signal, update_equity, handle_kill_switch, cancel_all_orders, calculated, alert, step,
  steps,
}
use quant_bot.Engine.Brokers.{paper_broker, IsIdle, paper_broker-IsKept}
use quant_bot.Engine.Halt.{steps_halted}
use quant_bot.Tests.Risk.{env, signal, event, trading}
use quant_bot.Tests.Backtest.{same_every_bar}
use quant_bot.Tests.Broker.{paper_config, paper_intent}

abbrev halted : Engine ℤ (Paper.Broker ℤ) (List (Signal ℤ))
halted =
    new_engine "MES"
      (Orders.place_order 5 paper_intent (Paper.connect (Paper.new_broker paper_config))).0
      (record trading { safe_mode = true }) (signal ∷ []) (new_calculator default_calculator_config)
      true

abbrev outside : Outside
outside = record { looks = λ _. false; now = 9; risk_env = λ _. env }

abbrev run : List (Step ℤ)
run =
    starts
    ∷ receives outside event
    ∷ tick 10
    ∷ receives outside event
    ∷ stops
    ∷ trading_returns
    ∷ updating_returns
    ∷ stop_returns
    ∷ []

abbrev ended : Engine ℤ (Paper.Broker ℤ) (List (Signal ℤ))
ended = elim (steps paper_broker same_every_bar run halted) [
  | ok e ↦ e
  | err _ ↦ halted
  | panic ↦ halted
]

ends : steps paper_broker same_every_bar run halted ≡ ok ended
unfolding new_engine steps step start stop stop_finishes process_market_event process_signals
    process_signal update_equity handle_kill_switch cancel_all_orders calculated alert paper_broker
    Risk.update_equity drawdown update Paper.get_account_summary ◌+ℤ◌ Paper.subscribe_market_data
    lookup Orders.place_order Paper.is_connected Paper.connect Orders.submit Paper.new_broker
    Paper.calculate_unrealized_pnl floor_div on_bar Atr.update new_calculator Atr.new_atr
    default_calculator_config update_std_dev Sma.update new_std_dev Sma.new_sma Atr.current
ends = refl

steps_halted_example :
    IsIdle 2 halted.broker.running ended.broker × (ended.risk_engine.safe_mode ≡ true)
unfolding new_engine Orders.place_order Orders.submit Paper.connect Paper.new_broker
    Paper.is_connected
steps_halted_example =
    steps_halted paper_broker (IsIdle 2 halted.broker.running)
      (paper_broker-IsKept 2 halted.broker.running) same_every_bar run halted ended refl
      (record { used = refl; filling = refl }) ends

abbrev ruined : Engine ℤ (Paper.Broker ℤ) (List (Signal ℤ))
ruined = record halted {
  risk_engine = trading;
  broker =
      (Orders.place_order 5 paper_intent
        (Paper.connect (Paper.new_broker (record paper_config { initial_equity = pos 0 })))).0;
}
