-- ===== src/Tests/Grid.antt =====
-- internal/strategy/grid.go at concrete inputs: a bar that falls four spacings below the high, and one
-- after it.
use quant_bot.Prelude.{
  ◌+◌, ◌*◌, ◌≤◌, ◌≡◌, refl, ◌⊎◌, inl, true, false, List, [], ◌∷◌, ◌++◌, arith, length, leb, map,
}
use quant_bot.Prelude.Int.{ℤ, pos, wrap, ◌+ℤ◌, ◌-ℤ◌, ◌*ℤ◌}
use quant_bot.Decimal.Units.{units, units-IsDecimal, floor_div}
use quant_bot.Types.{
  ◌>>=◌, ok, err, panic, MarketEvent, Signal, flat, instrument_mes, get_instrument_spec,
}
use quant_bot.Strategy.{get_tick_size}
use quant_bot.Strategy.Breakout.{calculate_high, calculate_low, highest_from, lowest_from}
use quant_bot.Strategy.Grid.{
  Grid, Env, on_market_event, observe, swing, trade_grid, long_grid, short_grid, grid_level,
  is_new_level, enter_long, enter_short, enter, end_near_middle, middle,
}
use quant_bot.Strategy.Grid.Levels.{GridStep, on_market_event-GridStep}
use quant_bot.Strategy.Grid.Runs.{trace, trace_signals, signals_in, ends_in}
use quant_bot.Strategy.Grid.Total.{divides_by_zero, on_market_event_total}
use quant_bot.Strategy.Combined as Combined
use quant_bot.Strategy.Combined.{new_multi_strategy}
use quant_bot.Strategy.Combined.Laws.{answers, concat, on_market_event-answers}
use quant_bot.Strategy.Combined.Instances.{Supplied, grid_strategy}

abbrev falling : Grid ℤ
falling = record {
  cfg = record {
    grid_spacing_pct = pos 1;
    rebound_pct = pos 1;
    max_grid_levels = pos 5;
    lookback_bars = pos 2;
    stop_loss_pct = pos 1;
    min_move_points = pos 10;
  };
  highs = pos 400 ∷ pos 500 ∷ [];
  lows = pos 95 ∷ pos 90 ∷ [];
  swing_high = pos 500;
  swing_low = pos 90;
  last_grid_level = pos 0;
  last_signal_bar = pos 0;
  bar_count = pos 2;
  grid_direction = flat;
}

abbrev names : Env ℤ
names = record {
  long_id = λ _ _. "grid-long";
  short_id = λ _ _. "grid-short";
  strength = λ level _. ok level;
  long_reason = λ _ _ _ _. "drop";
  short_reason = λ _ _ _ _. "rise";
}

abbrev bar_at : ℤ → MarketEvent ℤ
bar_at close = record {
  symbol = "MES";
  timestamp = 6;
  open_price = close;
  high = pos 120;
  low = pos 95;
  close = close;
  volume = pos 10;
  atr = pos 25;
  std_dev = pos 3;
}

abbrev answered : Grid ℤ × List (Signal ℤ)
answered = elim (on_market_event names (bar_at (pos 100)) falling) [
  | ok r ↦ r
  | err _ ↦ (falling, [])
  | panic ↦ (falling, [])
]

answered_bar : on_market_event names (bar_at (pos 100)) falling ≡ ok (answered.0, answered.1)
unfolding on_market_event observe swing trade_grid long_grid short_grid grid_level is_new_level
    enter_long enter_short enter end_near_middle middle calculate_high calculate_low highest_from
    lowest_from wrap get_tick_size get_instrument_spec instrument_mes floor_div ◌*ℤ◌ ◌+ℤ◌ ◌-ℤ◌
answered_bar = refl

buys : length answered.1 ≡ 1
unfolding on_market_event observe swing trade_grid long_grid short_grid grid_level is_new_level
    enter_long enter_short enter end_near_middle middle calculate_high calculate_low highest_from
    lowest_from wrap get_tick_size get_instrument_spec instrument_mes floor_div ◌*ℤ◌ ◌+ℤ◌ ◌-ℤ◌
buys = refl

on_market_event-GridStep_example :
    (answered.0.cfg ≡ falling.cfg) × GridStep (pos 5) falling answered.0 answered.1
on_market_event-GridStep_example =
    on_market_event-GridStep names (bar_at (pos 100)) falling answered.0 answered.1 answered_bar

abbrev traced : List (Grid ℤ × List (Signal ℤ))
traced = elim (trace names (bar_at (pos 100) ∷ bar_at (pos 101) ∷ []) falling) [
  | ok bars ↦ bars
  | err _ ↦ []
  | panic ↦ []
]

traces : trace names (bar_at (pos 100) ∷ bar_at (pos 101) ∷ []) falling ≡ ok traced
unfolding trace wrap on_market_event observe swing trade_grid long_grid short_grid grid_level
    is_new_level enter_long enter_short enter end_near_middle middle calculate_high calculate_low
    highest_from lowest_from get_tick_size get_instrument_spec instrument_mes floor_div ◌*ℤ◌ ◌+ℤ◌
    ◌-ℤ◌
traces = refl

trace_signals_example : signals_in traced ≤ 5 * (ends_in falling traced + 1)
trace_signals_example =
    trace_signals names (bar_at (pos 100) ∷ bar_at (pos 101) ∷ []) falling traced traces
      (inl (refl, refl))

-- A bar with a price of zero.
on_market_event_total_example :
    ((divides_by_zero (bar_at (pos 0)) falling ≡ true)
      × (on_market_event names (bar_at (pos 0)) falling ≡ panic))
    ⊎ ((divides_by_zero (bar_at (pos 0)) falling ≡ false)
        × (r : Grid ℤ × List (Signal ℤ)) × (on_market_event names (bar_at (pos 0)) falling ≡ ok r))
on_market_event_total_example =
    on_market_event_total units-IsDecimal names (bar_at (pos 0)) (λ level _ _ _. (level, refl))
      falling (omega arith)

abbrev waiting : Supplied (Env ℤ) (Grid ℤ)
waiting = record { supply = λ _. names; calls = 0; state = falling }

-- The context is done once the first of two strategies has answered.
on_market_event-answers_example :
    Combined.on_market_event grid_strategy
      (λ i. leb 1 i)
      (bar_at (pos 100))
      (new_multi_strategy "both" (waiting ∷ waiting ∷ []))
    ≡ (answers grid_strategy (λ i. leb 1 i) (bar_at (pos 100)) (waiting ∷ []) >>= λ rs.
        ok (
          new_multi_strategy "both" (map (λ r. r.0) rs ++ waiting ∷ []),
          concat (map (λ r. r.1) rs),
        ))
on_market_event-answers_example =
    on_market_event-answers grid_strategy (λ i. leb 1 i) (bar_at (pos 100)) "both" (waiting ∷ [])
      (waiting ∷ []) (λ i h. ground arith) (λ _. refl)
