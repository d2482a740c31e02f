-- ===== src/Tests/Strategy.antt =====
-- internal/strategy at concrete inputs: a range of three bars, and a bar that breaks out of it.
use quant_bot.Prelude.{◌≤◌, ◌≡◌, refl, true, false, List, [], ◌∷◌, All, length, arith}
use quant_bot.Prelude.Int.{ℤ, pos, ◌+ℤ◌, ◌*ℤ◌, ◌-ℤ◌}
use quant_bot.Decimal.Units.{units, units-IsDecimal, floor_div}
use quant_bot.Types.{ok, err, panic, MarketEvent, Signal, Side, long}
use quant_bot.Strategy.Breakout.{
  Breakout, Env, on_market_event, remember, signals_for, update_range, signal_long, signal_short,
  breakout_high, breakout_low, calculate_high, calculate_low, highest_from, lowest_from,
}
use quant_bot.Strategy.Breakout.Signals.{IsBreakout, on_market_event-IsBreakout}
use quant_bot.Strategy.Breakout.Total.{on_market_event-ok}
use quant_bot.Tests.Roots.{units-HasRoots}
use quant_bot.Indicator.Window.{mean, is_ready}
use quant_bot.Indicator.Sma.{current}
use quant_bot.Indicator.StdDev.{current_std_dev, calculate_std_dev, sqrt, newton, is_ready_std_dev}
use quant_bot.Strategy.MeanReversion.{MeanReversion}
use quant_bot.Strategy.MeanReversion as MeanReversion
use quant_bot.Strategy.MeanReversion.Phases.{
  Phase, phase, directions, move, zone, bought, IsOneFlag, on_market_event-move,
}

abbrev watching : Breakout ℤ
watching = record {
  cfg = record {
    lookback_bars = pos 3;
    atr_multiplier = pos 2;
    min_atr = pos 0;
    breakout_buffer = pos 0;
  };
  highs = pos 110 ∷ pos 120 ∷ pos 115 ∷ [];
  lows = pos 100 ∷ pos 105 ∷ pos 104 ∷ [];
  signalled_long = false;
  signalled_short = false;
  last_range_high = pos 120;
  last_range_low = pos 100;
}

abbrev prints : Env ℤ
prints = record { long_uuid = "a"; short_uuid = "b"; above = λ _. "above"; below = λ _. "below" }

abbrev rise : MarketEvent ℤ
rise = record {
  symbol = "MES";
  timestamp = 6;
  open_price = pos 119;
  high = pos 131;
  low = pos 118;
  close = pos 130;
  volume = pos 10;
  atr = pos 25;
  std_dev = pos 3;
}

abbrev broken : Breakout ℤ × List (Signal ℤ)
broken = elim (on_market_event prints rise watching) [
  | ok r ↦ r
  | err _ ↦ (watching, [])
  | panic ↦ (watching, [])
]

breaks : on_market_event prints rise watching ≡ ok (broken.0, broken.1)
unfolding on_market_event remember
breaks = refl

rises : length broken.1 ≡ 1
unfolding on_market_event remember signals_for update_range signal_long signal_short breakout_high
    breakout_low calculate_high calculate_low highest_from lowest_from ◌*ℤ◌ ◌+ℤ◌ ◌-ℤ◌
rises = refl

on_market_event-IsBreakout_example :
    All (IsBreakout rise (pos 120 ∷ pos 115 ∷ []) (pos 105 ∷ pos 104 ∷ [])) broken.1
    × (length broken.1 ≤ 1)
unfolding remember calculate_high calculate_low highest_from lowest_from
on_market_event-IsBreakout_example =
    on_market_event-IsBreakout units-IsDecimal prints rise watching broken.0 broken.1 breaks refl
      refl

on_market_event-ok_example :
    (b : Breakout ℤ) × (signals : List (Signal ℤ)) × (on_market_event prints rise watching
      ≡ ok (b, signals))
    × (length b.highs ≡ length b.lows)
    × (b.cfg ≡ watching.cfg)
on_market_event-ok_example = on_market_event-ok prints rise watching refl (omega arith)

abbrev reverting : MeanReversion ℤ
reverting = record {
  cfg = record {
    sma_period = pos 2;
    std_dev_period = pos 2;
    entry_std_dev = pos 1;
    atr_multiplier = pos 2;
    min_std_dev = pos 0;
  };
  sma = record { period = pos 2; values = pos 150 ∷ pos 160 ∷ []; sum = pos 310 };
  std_dev = record {
    period = pos 2;
    values = pos 150 ∷ pos 160 ∷ [];
    sma = record { period = pos 2; values = pos 150 ∷ pos 160 ∷ []; sum = pos 310 };
  };
  last_signal_up = true;
  last_signal_down = false;
}

abbrev tells : MeanReversion.Env ℤ
tells = record { signal_uuid = "a"; below = λ _ _. "below"; above = λ _ _. "above" }

-- The close lies below the bands after a short signal.
on_market_event-move_example :
    (m : MeanReversion ℤ) × (signals : List (Signal ℤ)) × (MeanReversion.on_market_event tells rise
        reverting
      ≡ ok (m, signals))
    × (IsOneFlag m)
    × ◌≡◌ {A = Phase × List Side} (phase m, directions signals) (bought, long ∷ [])
unfolding move zone current mean current_std_dev calculate_std_dev sqrt newton is_ready
    is_ready_std_dev floor_div ◌*ℤ◌ ◌+ℤ◌ ◌-ℤ◌
on_market_event-move_example =
    on_market_event-move units-IsDecimal units-HasRoots 1 1 tells rise reverting (pos 155) (pos 5)
      refl refl (refl, refl) refl refl refl refl
