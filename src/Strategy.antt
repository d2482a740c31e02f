-- ===== src/Strategy.antt =====
-- internal/strategy/strategy.go: the builder of signals.
pub mod Breakout
pub mod Grid
pub mod Combined
pub mod MeanReversion
use quant_bot.Prelude.{ℕ, String, Bool, ◌||◌, none, some, if◌then◌else◌}
use quant_bot.Prelude.Int.{ℤ, pos}
use quant_bot.Decimal.{Decimal}
use quant_bot.Types.{Side, flat, Signal, MarketEvent, get_instrument_spec}

module _ {ℓ} {D : Type ℓ} ⦃d : Decimal D⦄ where
  open d use {zero_dec, mul, div, ceil, int_part, is_zero, literal}

  -- `NewSignalBuilder`; the random identifier is an argument.
  unfoldable pub new_signal : String → String → MarketEvent D → Signal D
  new_signal uuid strategy_name event = record {
    id = uuid;
    timestamp = event.timestamp;
    symbol = event.symbol;
    direction = flat;
    strength = zero_dec;
    stop_ticks = pos 0;
    take_profit_atr = zero_dec;
    reason = "";
    strategy_name = strategy_name;
  }

  unfoldable pub with_direction : Side → Signal D → Signal D
  with_direction side s = record s { direction = side }

  unfoldable pub with_reason : String → Signal D → Signal D
  with_reason reason s = record s { reason = reason }

  unfoldable pub with_atr_stop : D → D → D → Signal D → Signal D
  with_atr_stop atr multiplier tick_size s =
      if is_zero atr || is_zero tick_size
      then s
      else record s { stop_ticks = int_part (ceil (div (mul atr multiplier) tick_size)) }

  unfoldable pub get_tick_size : String → D
  get_tick_size symbol = elim (get_instrument_spec {D = D} symbol) [
    | none ↦ literal 25 2
    | some spec ↦ spec.tick_size
  ]
