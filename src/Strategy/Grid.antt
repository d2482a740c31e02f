-- ===== src/Strategy/Grid.antt =====
-- internal/strategy/grid.go: the grid of entries against a move, one entry for each level of it.
pub mod Entries
pub mod Levels
pub mod Runs
pub mod Total
use quant_bot.Prelude.{ℕ, String, Bool, not, ◌&&◌, List, [], ◌∷◌, ◌++◌, if◌then◌else◌, length}
use quant_bot.Prelude.Int.{ℤ, pos, negsuc, ltb_ℤ, leb_ℤ, ◌+ℤ◌, wrap}
use quant_bot.Decimal.{Decimal}
use quant_bot.Types.{
  Result, ok, panic, ◌>>=◌, checked_div, Side, flat, long, short, side_eq, Signal, MarketEvent,
}
use quant_bot.Strategy.{get_tick_size}
use quant_bot.Strategy.Breakout.{calculate_high, calculate_low, tail}

pub record GridConfig {ℓ} (D : Type ℓ) : Type ℓ where
  pub grid_spacing_pct : D
  pub rebound_pct : D
  pub max_grid_levels : ℤ
  pub lookback_bars : ℤ
  pub stop_loss_pct : D
  pub min_move_points : D

pub record Grid {ℓ} (D : Type ℓ) : Type ℓ where
  pub cfg : GridConfig D
  pub highs : List D
  pub lows : List D
  pub swing_high : D
  pub swing_low : D
  pub last_grid_level : ℤ
  pub last_signal_bar : ℤ
  pub bar_count : ℤ
  pub grid_direction : Side

-- What is printed and computed in floating point: the identifier of a signal from the bar and the
-- level, the strength from the level and the number of levels (`NewFromFloat` panics on an infinity
-- and on NaN), and the reason from the level, the move, the take profit and the stop.
pub record Env {ℓ} (D : Type ℓ) : Type ℓ where
  pub long_id : ℤ → ℤ → String
  pub short_id : ℤ → ℤ → String
  pub strength : ℤ → ℤ → Result D
  pub long_reason : ℤ → D → D → D → String
  pub short_reason : ℤ → D → D → D → String

module _ {ℓ} {D : Type ℓ} ⦃d : Decimal D⦄ where
  open d use {
    zero_dec, of_int, literal, add, sub, mul, div, abs, ceil, int_part, greater_than, less_than,
  }

  unfoldable pub original_grid_config : GridConfig D
  original_grid_config = record {
    grid_spacing_pct = literal 2 3;
    rebound_pct = literal 15 2;
    max_grid_levels = pos 5;
    lookback_bars = pos 20;
    stop_loss_pct = literal 5 3;
    min_move_points = literal 10 0;
  }

  unfoldable pub conservative_grid_config : GridConfig D
  conservative_grid_config = record {
    grid_spacing_pct = literal 4 3;
    rebound_pct = literal 20 2;
    max_grid_levels = pos 3;
    lookback_bars = pos 30;
    stop_loss_pct = literal 6 3;
    min_move_points = literal 20 0;
  }

  unfoldable pub default_grid_config : GridConfig D
  unfolding original_grid_config
  default_grid_config = original_grid_config

  empty_grid : GridConfig D → Grid D
  empty_grid cfg = record {
    cfg = cfg;
    highs = [];
    lows = [];
    swing_high = zero_dec;
    swing_low = zero_dec;
    last_grid_level = pos 0;
    last_signal_bar = pos 0;
    bar_count = pos 0;
    grid_direction = flat;
  }

  -- A slice of a negative capacity cannot be made.
  unfoldable pub new_grid : GridConfig D → Result (Grid D)
  unfolding empty_grid
  new_grid cfg = if ltb_ℤ cfg.lookback_bars (pos 0) then panic else ok (empty_grid cfg)

  -- The bar is counted and joins the history, and the oldest one leaves it.
  unfoldable pub observe : MarketEvent D → Grid D → Grid D
  observe event g =
      let count = wrap (g.bar_count +ℤ pos 1) in
      let highs = g.highs ++ (event.high ∷ []) in
      let lows = g.lows ++ (event.low ∷ []) in
      if ltb_ℤ g.cfg.lookback_bars (pos (length highs))
      then record g { bar_count = count; highs = tail highs; lows = tail lows }
      else record g { bar_count = count; highs = highs; lows = lows }

  -- The level of the grid at which a move of this size stands, from one on.
  unfoldable pub grid_level : D → D → Result ℤ
  grid_level move spacing = do steps ← checked_div move spacing; ok (wrap (int_part steps +ℤ pos 1))

  -- A level above the last one, within the number of levels.
  unfoldable pub is_new_level : Grid D → ℤ → Bool
  is_new_level g level = ltb_ℤ g.last_grid_level level && leb_ℤ level g.cfg.max_grid_levels

  unfoldable pub grid_signal : String → Side → D → ℤ → String → MarketEvent D → Signal D
  grid_signal id side strength ticks reason event = record {
    id = id;
    timestamp = event.timestamp;
    symbol = event.symbol;
    direction = side;
    strength = strength;
    stop_ticks = ticks;
    take_profit_atr = zero_dec;
    reason = reason;
    strategy_name = "grid";
  }

  -- The state after an entry at a level, with its signal.
  unfoldable pub enter :
      String
      → Side
      → ℤ
      → String
      → Env D
      → MarketEvent D
      → Grid D
      → Result (Grid D × List (Signal D))
  enter id side level reason env event g = do
    ticks ← checked_div (mul event.close g.cfg.stop_loss_pct) (get_tick_size event.symbol)
    strength ← env.strength level g.cfg.max_grid_levels
    let signal = grid_signal id side strength (int_part (ceil ticks)) reason event
    ok (record g { last_grid_level = level; grid_direction = side }, signal ∷ [])

  unfoldable pub enter_long :
      Env D → MarketEvent D → D → ℤ → Grid D → Result (Grid D × List (Signal D))
  enter_long env event drop level g =
      let target = add event.close (mul drop g.cfg.rebound_pct) in
      let stop = sub event.close (mul event.close g.cfg.stop_loss_pct) in
      enter (env.long_id g.bar_count level) long level (env.long_reason level drop target stop) env
        event g

  unfoldable pub enter_short :
      Env D → MarketEvent D → D → ℤ → Grid D → Result (Grid D × List (Signal D))
  enter_short env event rise level g =
      let target = sub event.close (mul rise g.cfg.rebound_pct) in
      let stop = add event.close (mul event.close g.cfg.stop_loss_pct) in
      enter (env.short_id g.bar_count level) short level (env.short_reason level rise target stop)
        env event g

  -- The close has dropped from the high.
  unfoldable pub long_grid : Env D → MarketEvent D → D → Grid D → Result (Grid D × List (Signal D))
  long_grid env event spacing g =
      let drop = sub g.swing_high event.close in
      let entry = grid_level drop spacing >>= λ level.
      if is_new_level g level then enter_long env event drop level g else ok (g, []) in
      if greater_than drop g.cfg.min_move_points then entry else ok (g, [])

  -- The close has risen from the low, and no long grid is active.
  unfoldable pub short_grid : Env D → MarketEvent D → D → Grid D → Result (Grid D × List (Signal D))
  short_grid env event spacing g =
      let rise = sub event.close g.swing_low in
      let entry = grid_level rise spacing >>= λ level.
      if is_new_level g level then enter_short env event rise level g else ok (g, []) in
      if greater_than rise g.cfg.min_move_points && not (side_eq g.grid_direction long)
      then entry
      else ok (g, [])

  unfoldable pub middle : Grid D → D
  middle g = add g.swing_low (div (sub g.swing_high g.swing_low) (of_int (pos 2)))

  -- The grid ends when the close is back in the middle of the range.
  unfoldable pub end_near_middle : MarketEvent D → D → Grid D → Grid D
  end_near_middle event spacing g =
      if less_than (abs (sub event.close (middle g))) spacing
      then record g { last_grid_level = pos 0; grid_direction = flat }
      else g

  unfoldable pub trade_grid : Env D → MarketEvent D → D → Grid D → Result (Grid D × List (Signal D))
  trade_grid env event spacing g = do
    longs ← long_grid env event spacing g
    shorts ← short_grid env event spacing longs.0
    ok (end_near_middle event spacing shorts.0, longs.1 ++ shorts.1)

  unfoldable pub swing : Grid D → Grid D
  swing g = record g { swing_high = calculate_high g.highs; swing_low = calculate_low g.lows }

  unfoldable pub on_market_event :
      Env D → MarketEvent D → Grid D → Result (Grid D × List (Signal D))
  on_market_event env event g =
      let g1 = observe event g in
      let g2 = swing g1 in
      if ltb_ℤ (pos (length g1.highs)) g1.cfg.lookback_bars
      then ok (g1, [])
      else if less_than (sub g2.swing_high g2.swing_low) g2.cfg.min_move_points
      then ok (g2, [])
      else trade_grid env event (mul event.close g2.cfg.grid_spacing_pct) g2

  unfoldable pub reset : Grid D → Grid D
  reset g = record g {
    highs = [];
    lows = [];
    swing_high = zero_dec;
    swing_low = zero_dec;
    last_grid_level = pos 0;
    last_signal_bar = pos 0;
    bar_count = pos 0;
    grid_direction = flat;
  }
