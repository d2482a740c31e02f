-- ===== src/Strategy/Breakout.antt =====
-- internal/strategy/breakout.go: the breakout from the range of the last bars.
pub mod Range
pub mod Signals
pub mod Total
use quant_bot.Prelude.{
  ℕ, String, Bool, true, false, not, ◌&&◌, ◌||◌, List, [], ◌∷◌, ◌++◌, if◌then◌else◌, length, init,
}
use quant_bot.Prelude.Int.{ℤ, pos, ltb_ℤ}
use quant_bot.Decimal.{Decimal}
use quant_bot.Types.{Result, ok, panic, Side, long, short, Signal, MarketEvent}
use quant_bot.Strategy.{new_signal, with_direction, with_reason, with_atr_stop, get_tick_size}

pub record BreakoutConfig {ℓ} (D : Type ℓ) : Type ℓ where
  pub lookback_bars : ℤ
  pub atr_multiplier : D
  pub min_atr : D
  pub breakout_buffer : D

pub record Breakout {ℓ} (D : Type ℓ) : Type ℓ where
  pub cfg : BreakoutConfig D
  pub highs : List D
  pub lows : List D
  pub signalled_long : Bool
  pub signalled_short : Bool
  pub last_range_high : D
  pub last_range_low : D

-- What an event reads from outside: the identifiers of the two signals, and their reasons, which
-- print a level as a floating point number.
pub record Env {ℓ} (D : Type ℓ) : Type ℓ where
  pub long_uuid : String
  pub short_uuid : String
  pub above : D → String
  pub below : D → String

module _ {ℓ} {D : Type ℓ} ⦃d : Decimal D⦄ where
  open d use {zero_dec, literal, add, sub, mul, equal, greater_than, less_than, is_zero}

  unfoldable pub default_breakout_config : BreakoutConfig D
  default_breakout_config = record {
    lookback_bars = pos 20;
    atr_multiplier = literal 20 1;
    min_atr = zero_dec;
    breakout_buffer = literal 5 4;
  }

  unfoldable pub new_breakout : BreakoutConfig D → Breakout D
  new_breakout cfg = record {
    cfg = cfg;
    highs = [];
    lows = [];
    signalled_long = false;
    signalled_short = false;
    last_range_high = zero_dec;
    last_range_low = zero_dec;
  }

  -- The loops of `calculateHigh` and `calculateLow` over the rest of the slice.
  unfoldable pub highest_from : D → List D → D
  highest_from high [] = high
  highest_from high (v ∷ vs) = highest_from (if greater_than v high then v else high) vs

  unfoldable pub lowest_from : D → List D → D
  lowest_from low [] = low
  lowest_from low (v ∷ vs) = lowest_from (if less_than v low then v else low) vs

  unfoldable pub calculate_high : List D → D
  unfolding highest_from
  calculate_high [] = zero_dec
  calculate_high (v ∷ vs) = highest_from v vs

  unfoldable pub calculate_low : List D → D
  unfolding lowest_from
  calculate_low [] = zero_dec
  calculate_low (v ∷ vs) = lowest_from v vs

  abbrev pub tail : List D → List D
  tail [] = []
  tail (v ∷ vs) = vs

  abbrev pub is_empty : List D → Bool
  is_empty [] = true
  is_empty (v ∷ vs) = false

  -- The bar joins the history, and the oldest one leaves it.
  unfoldable pub remember : MarketEvent D → Breakout D → Breakout D
  remember event b =
      let highs = b.highs ++ (event.high ∷ []) in
      let lows = b.lows ++ (event.low ∷ []) in
      if ltb_ℤ b.cfg.lookback_bars (pos (length highs))
      then record b { highs = tail highs; lows = tail lows }
      else record b { highs = highs; lows = lows }

  -- A new range, of the bars before the current one, takes the flags back.
  unfoldable pub update_range : Breakout D → Breakout D
  update_range b =
      let high = calculate_high (init b.highs) in
      let low = calculate_low (init b.lows) in
      if not (equal high b.last_range_high) || not (equal low b.last_range_low)
      then record b {
        signalled_long = false;
        signalled_short = false;
        last_range_high = high;
        last_range_low = low;
      }
      else b

  -- The levels of the breakout for a range.
  unfoldable pub breakout_high : BreakoutConfig D → D → D → D
  breakout_high cfg high low = add high (mul (sub high low) cfg.breakout_buffer)

  unfoldable pub breakout_low : BreakoutConfig D → D → D → D
  breakout_low cfg high low = sub low (mul (sub high low) cfg.breakout_buffer)

  unfoldable pub build : String → Side → String → MarketEvent D → Breakout D → Signal D
  build uuid side reason event b = with_reason reason (
      with_atr_stop event.atr b.cfg.atr_multiplier (get_tick_size event.symbol)
        (with_direction side (new_signal uuid "breakout" event)))

  unfoldable pub signal_long : Env D → MarketEvent D → D → Breakout D → Breakout D × List (Signal D)
  unfolding build
  signal_long env event level b =
      if greater_than event.close level && not b.signalled_long
      then (
        record b { signalled_long = true },
        build env.long_uuid long (env.above level) event b ∷ [],
      )
      else (b, [])

  unfoldable pub signal_short :
      Env D → MarketEvent D → D → Breakout D → Breakout D × List (Signal D)
  unfolding build
  signal_short env event level b =
      if less_than event.close level && not b.signalled_short
      then (
        record b { signalled_short = true },
        build env.short_uuid short (env.below level) event b ∷ [],
      )
      else (b, [])

  -- `OnMarketEvent` from the range on.
  unfoldable pub signals_for : Env D → MarketEvent D → Breakout D → Breakout D × List (Signal D)
  unfolding update_range signal_long signal_short breakout_high breakout_low
  signals_for env event b =
      let high = calculate_high (init b.highs) in
      let low = calculate_low (init b.lows) in
      let b' = update_range b in
      let (b1, longs) = signal_long env event (breakout_high b.cfg high low) b' in
      let (b2, shorts) = signal_short env event (breakout_low b.cfg high low) b1 in
      if not (is_zero b.cfg.min_atr) && less_than event.atr b.cfg.min_atr
      then (b', [])
      else (b2, longs ++ shorts)

  -- Without a bar in the history its slice panics.
  unfoldable pub on_market_event :
      Env D → MarketEvent D → Breakout D → Result (Breakout D × List (Signal D))
  unfolding remember
  on_market_event env event b =
      let b' = remember event b in
      if ltb_ℤ (pos (length b'.highs)) b.cfg.lookback_bars
      then ok (b', [])
      else if is_empty b'.highs || is_empty b'.lows
      then panic
      else ok (signals_for env event b')

  unfoldable pub reset : Breakout D → Breakout D
  reset b = record b {
    highs = [];
    lows = [];
    signalled_long = false;
    signalled_short = false;
    last_range_high = zero_dec;
    last_range_low = zero_dec;
  }
