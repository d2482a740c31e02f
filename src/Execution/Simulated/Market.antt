-- ===== src/Execution/Simulated/Market.antt =====
-- What a bar does to the position of its symbol in the simulated executor.
use quant_bot.Prelude.{◌≡◌, String, false, none, List, [], ◌∷◌, ◌++◌, ◌⊎◌, if◌then◌else◌, str_eq}
use quant_bot.Prelude.Dict.{lookup, insert}
use quant_bot.Decimal.{Decimal, ◌≼◌}
use quant_bot.Types.{long, short, MarketEvent, OrderResult, Position, Trade, spec_or_zero}
use quant_bot.Execution.Simulated.{SimulatedExecutor, exit_fill, gross_profit, slippage_amount}

module _ {ℓ} {D : Type ℓ} ⦃d : Decimal D⦄ where
  open d use {of_int, sub, mul, is_zero}

  -- The bar reaches the stop loss, which is set.
  abbrev pub IsStopHit : MarketEvent D → Position D → Type 0
  IsStopHit event p =
      (is_zero p.stop_loss ≡ false)
      × (((p.side ≡ long) × (event.low ≼ p.stop_loss))
          ⊎ ((p.side ≡ short) × (p.stop_loss ≼ event.high)))

  -- The bar reaches the take profit, which is set.
  abbrev pub IsTargetHit : MarketEvent D → Position D → Type 0
  IsTargetHit event p =
      (is_zero p.take_profit ≡ false)
      × (((p.side ≡ long) × (p.take_profit ≼ event.high))
          ⊎ ((p.side ≡ short) × (event.low ≼ p.take_profit)))

  -- The position has left at the level: its symbol is free, the one fill and the one new trade are
  -- for all its contracts at the level moved by the slippage, and other symbols keep theirs.
  pub record IsExit (event : MarketEvent D) (p : Position D) (level : D)
      (s s' : SimulatedExecutor D) (fills : List (OrderResult D)) : Type ℓ where
    pub fill : OrderResult D
    pub trade : Trade D
    pub fills_eq : fills ≡ fill ∷ []
    pub trades_eq : s'.trades ≡ s.trades ++ (trade ∷ [])
    pub price :
        fill.avg_fill_price
        ≡ exit_fill p.side level (slippage_amount s.cfg (spec_or_zero {D = D} p.symbol))
    pub same_price : trade.exit_price ≡ fill.avg_fill_price
    pub quantity : (fill.filled_qty ≡ p.contracts) × (trade.contracts ≡ p.contracts)
    pub time : fill.filled_at ≡ event.timestamp
    pub net :
        trade.net_pl
        ≡ sub
            (gross_profit p fill.avg_fill_price (spec_or_zero {D = D} p.symbol).point_value)
            (mul s.cfg.commission_per_side (of_int p.contracts))
    pub free :
        (k : String)
        → lookup k s'.positions ≡ (if str_eq event.symbol k then none else lookup k s.positions)

  -- The executor once it has taken the time and the price of the bar.
  abbrev quoted : MarketEvent D → SimulatedExecutor D → SimulatedExecutor D
  quoted event s = record s {
    current_time = event.timestamp;
    current_price = insert event.symbol event.close s.current_price;
  }
