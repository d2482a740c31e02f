-- ===== src/Strategy/MeanReversion.antt =====
-- internal/strategy/meanrev.go: the return of the price into the bands around its mean.
pub mod Phases
use quant_bot.Prelude.{
  ℕ, String, Bool, true, false, not, ◌&&◌, ◌||◌, List, [], ◌∷◌, if◌then◌else◌, length,
}
use quant_bot.Prelude.Int.{ℤ, pos, ltb_ℤ}
use quant_bot.Decimal.{Decimal}
use quant_bot.Types.{Result, ok, err, panic, ◌>>=◌, Side, long, short, Signal, MarketEvent}
use quant_bot.Indicator.Window.{Window, is_ready}
use quant_bot.Indicator.Sma.{new_sma, update, current}
use quant_bot.Indicator.Sma as Sma
use quant_bot.Indicator.StdDev.{
  StdDev, new_std_dev, update_std_dev, current_std_dev, is_ready_std_dev, reset_std_dev,
}
use quant_bot.Strategy.{new_signal, with_direction, with_reason, with_atr_stop, get_tick_size}

pub record MeanRevConfig {ℓ} (D : Type ℓ) : Type ℓ where
  pub sma_period : ℤ
  pub std_dev_period : ℤ
  pub entry_std_dev : D
  pub atr_multiplier : D
  pub min_std_dev : D

pub record MeanReversion {ℓ} (D : Type ℓ) : Type ℓ where
  pub cfg : MeanRevConfig D
  pub sma : Window D
  pub std_dev : StdDev D
  pub last_signal_up : Bool
  pub last_signal_down : Bool

-- What an event reads from outside: the identifier of its signal, and the reasons, which print the
-- close and a band as floating point numbers.
pub record Env {ℓ} (D : Type ℓ) : Type ℓ where
  pub signal_uuid : String
  pub below : D → D → String
  pub above : D → D → String

module _ {ℓ} {D : Type ℓ} ⦃d : Decimal D⦄ where
  open d use {zero_dec, literal, add, sub, mul, greater_than, less_than, is_zero}

  unfoldable pub default_mean_rev_config : MeanRevConfig D
  default_mean_rev_config = record {
    sma_period = pos 20;
    std_dev_period = pos 20;
    entry_std_dev = literal 20 1;
    atr_multiplier = literal 15 1;
    min_std_dev = zero_dec;
  }

  unfoldable pub new_mean_reversion : MeanRevConfig D → MeanReversion D
  new_mean_reversion cfg = record {
    cfg = cfg;
    sma = new_sma cfg.sma_period;
    std_dev = new_std_dev cfg.std_dev_period;
    last_signal_up = false;
    last_signal_down = false;
  }

  -- The bands around a mean, for a deviation.
  unfoldable pub upper_band : D → D → MeanReversion D → D
  upper_band mean deviation m = add mean (mul deviation m.cfg.entry_std_dev)

  unfoldable pub lower_band : D → D → MeanReversion D → D
  lower_band mean deviation m = sub mean (mul deviation m.cfg.entry_std_dev)

  -- The bar joins both indicators.
  unfoldable pub observe : MarketEvent D → MeanReversion D → Result (MeanReversion D)
  observe event m = update event.close m.sma >>= λ (sma, _).
      update_std_dev event.close m.std_dev >>= λ (std_dev, _).
      ok (record m { sma = sma; std_dev = std_dev })

  unfoldable pub build : String → Side → String → MarketEvent D → MeanReversion D → Signal D
  build uuid side reason event m = with_reason reason (
      with_atr_stop event.atr m.cfg.atr_multiplier (get_tick_size event.symbol)
        (with_direction side (new_signal uuid "meanrev" event)))

  -- `OnMarketEvent` from the bands on.
  unfoldable pub signals_for :
      Env D → MarketEvent D → D → D → MeanReversion D → MeanReversion D × List (Signal D)
  unfolding build
  signals_for env event lower upper m =
      if less_than event.close lower && not m.last_signal_down
      then (
        record m { last_signal_down = true; last_signal_up = false },
        build env.signal_uuid long (env.below event.close lower) event m ∷ [],
      )
      else if greater_than event.close upper && not m.last_signal_up
      then (
        record m { last_signal_up = true; last_signal_down = false },
        build env.signal_uuid short (env.above event.close upper) event m ∷ [],
      )
      else if greater_than event.close lower && less_than event.close upper
      then (record m { last_signal_up = false; last_signal_down = false }, [])
      else (m, [])

  -- Whether the bands before the bar may give a signal.
  unfoldable pub is_armed : D → MeanReversion D → Bool
  is_armed deviation m =
      is_ready m.sma
      && is_ready_std_dev m.std_dev
      && not (not (is_zero m.cfg.min_std_dev) && less_than deviation m.cfg.min_std_dev)

  -- What an armed strategy does once the bar has joined, and what another one does.
  unfoldable pub respond :
      Env D
      → MarketEvent D
      → D
      → D
      → MeanReversion D
      → MeanReversion D
      → MeanReversion D × List (Signal D)
  unfolding upper_band lower_band is_armed signals_for
  respond env event mean deviation m m' =
      if is_armed deviation m
      then signals_for env event (lower_band mean deviation m) (upper_band mean deviation m) m'
      else (m', [])

  unfoldable pub on_market_event :
      Env D → MarketEvent D → MeanReversion D → Result (MeanReversion D × List (Signal D))
  unfolding observe respond
  on_market_event env event m = current m.sma >>= λ mean. current_std_dev m.std_dev >>= λ deviation.
      observe event m >>= λ m'. ok (respond env event mean deviation m m')

  unfoldable pub reset : MeanReversion D → MeanReversion D
  reset m = record m {
    sma = Sma.reset m.sma;
    std_dev = reset_std_dev m.std_dev;
    last_signal_up = false;
    last_signal_down = false;
  }
