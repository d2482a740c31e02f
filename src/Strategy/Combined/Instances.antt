-- ===== src/Strategy/Combined/Instances.antt =====
-- The strategies of internal/strategy behind their interface: OnMarketEvent, Name and Reset.
use quant_bot.Prelude.{ℕ, suc, List}
use quant_bot.Decimal.{Decimal}
use quant_bot.Types.{Result, ok, ◌>>=◌, Signal, MarketEvent}
use quant_bot.Strategy.Breakout as Breakout
use quant_bot.Strategy.MeanReversion as MeanReversion
use quant_bot.Strategy.Grid as Grid
use quant_bot.Strategy.Combined.{Strategy, MultiStrategy, on_market_event, reset}

-- A strategy with what it reads from outside at each of its calls, which are counted.
pub record Supplied {ℓ} (E S : Type ℓ) : Type ℓ where
  pub supply : ℕ → E
  pub calls : ℕ
  pub state : S

module _ {ℓ} {D : Type ℓ} ⦃d : Decimal D⦄ where
  supplied :
      {E S : Type ℓ}
      → (E → MarketEvent D → S → Result (S × List (Signal D)))
      → MarketEvent D
      → Supplied E S
      → Result (Supplied E S × List (Signal D))
  supplied step event s = step (s.supply s.calls) event s.state >>= λ r.
      ok (record s { calls = suc s.calls; state = r.0 }, r.1)

  unfoldable pub breakout_strategy : Strategy D (Supplied (Breakout.Env D) (Breakout.Breakout D))
  unfolding supplied
  breakout_strategy = record {
    on_event = λ _. supplied Breakout.on_market_event;
    name_of = λ _. "breakout";
    reset_state = λ s. record s { state = Breakout.reset s.state };
  }

  unfoldable pub mean_reversion_strategy :
      Strategy D (Supplied (MeanReversion.Env D) (MeanReversion.MeanReversion D))
  unfolding supplied
  mean_reversion_strategy = record {
    on_event = λ _. supplied MeanReversion.on_market_event;
    name_of = λ _. "meanrev";
    reset_state = λ s. record s { state = MeanReversion.reset s.state };
  }

  unfoldable pub grid_strategy : Strategy D (Supplied (Grid.Env D) (Grid.Grid D))
  unfolding supplied
  grid_strategy = record {
    on_event = λ _. supplied Grid.on_market_event;
    name_of = λ _. "grid";
    reset_state = λ s. record s { state = Grid.reset s.state };
  }

module _ {ℓ} {D : Type ℓ} {S : Type ℓ} where
  unfoldable pub multi_strategy : Strategy D S → Strategy D (MultiStrategy S)
  multi_strategy strategy = record {
    on_event = on_market_event strategy;
    name_of = λ m. m.name;
    reset_state = reset strategy;
  }
