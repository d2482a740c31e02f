-- ===== src/Broker/Paper/Positions.antt =====
-- internal/broker/paper/paper.go: positions, which bars mark and fills change.
use quant_bot.Prelude.{ℕ, String, Option, none, some, List, if◌then◌else◌, map}
use quant_bot.Prelude.Int.{ℤ, pos, ◌+ℤ◌, ◌-ℤ◌, wrap, ltb_ℤ, leb_ℤ}
use quant_bot.Prelude.Dict.{Dict, lookup, insert, erase}
use quant_bot.Decimal.{Decimal}
use quant_bot.Types.{
  Result, ok, ◌>>=◌, checked_div, Side, short, side_eq, MarketEvent, InstrumentSpec, spec_or_zero,
}
use quant_bot.Broker.{Position}
use quant_bot.Broker.Paper.Account.{Broker, publish}

module _ {ℓ} {D : Type ℓ} ⦃d : Decimal D⦄ where
  open d use {zero_dec, of_int, literal, add, sub, mul, neg}

  -- The profit of so many contracts of the position at the price, by ticks.
  unfoldable pub profit_at : InstrumentSpec D → Position D → D → ℤ → Result D
  profit_at spec p price contracts = do
    ticks ← checked_div (sub price p.avg_cost) spec.tick_size
    let pnl = mul (mul ticks spec.tick_value) (of_int contracts)
    ok (if side_eq p.side short then neg pnl else pnl)

  unfoldable pub update_position_pnl : ℕ → String → D → Broker D → Result (Broker D)
  update_position_pnl now symbol price b = elim (lookup symbol b.positions) [
    | none ↦ ok b
    | some p ↦ profit_at (spec_or_zero {D = D} symbol) p price p.contracts >>= λ pnl. ok (record b {
      positions =
          insert symbol
            (record p { market_price = price; unrealized_pnl = pnl; last_updated = now })
            b.positions;
    })
  ]

  unfoldable pub simulate_market_data : ℕ → MarketEvent D → Broker D → Result (Broker D)
  simulate_market_data now event b =
      update_position_pnl now event.symbol event.close
        (record b { prices = insert event.symbol event.close b.prices })
      >>= λ b'. ok (publish event b')

  -- `realizePositionPnL`
  unfoldable pub realize_position_pnl : Position D → D → ℤ → Broker D → Result (Broker D)
  unfolding profit_at
  realize_position_pnl p exit_price contracts b =
      profit_at (spec_or_zero {D = D} p.symbol) p exit_price contracts >>= λ pnl.
      ok (record b { cash = add b.cash pnl; equity = add b.equity pnl })

  -- The position that a fill opens.
  unfoldable pub opened : ℕ → String → Side → ℤ → D → Position D
  opened now symbol side contracts price = record {
    symbol = symbol;
    contracts = contracts;
    side = side;
    avg_cost = price;
    market_price = price;
    market_value = zero_dec;
    unrealized_pnl = zero_dec;
    realized_pnl = zero_dec;
    last_updated = now;
  }

  -- A fill on the side of the position: the average cost of both.
  unfoldable pub add_to_position : Position D → ℤ → D → Result (Position D)
  add_to_position p contracts price =
      let total = wrap (p.contracts +ℤ contracts) in
      checked_div (add (mul p.avg_cost (of_int p.contracts)) (mul price (of_int contracts)))
        (of_int total)
      >>= λ avg. ok (record p { avg_cost = avg; contracts = total })

  -- What a fill on the other side leaves of the position: nothing, the rest of the fill, or the rest
  -- of the position.
  unfoldable pub reduce_position : Position D → Side → ℤ → D → Option (Position D)
  reduce_position p side contracts price =
      let remaining = wrap (contracts -ℤ p.contracts) in
      let flipped = record p {
        side = side;
        contracts = remaining;
        avg_cost = price;
        unrealized_pnl = zero_dec;
      } in
      if leb_ℤ p.contracts contracts
      then (if ltb_ℤ (pos 0) remaining then some flipped else none)
      else some (record p { contracts = wrap (p.contracts -ℤ contracts) })

  -- The contracts of the position that a fill on the other side closes.
  unfoldable pub closed_contracts : Position D → ℤ → ℤ
  closed_contracts p contracts = if leb_ℤ p.contracts contracts then p.contracts else contracts

  abbrev pub marked : ℕ → D → Position D → Position D
  marked now price p = record p { market_price = price; last_updated = now }

  -- The positions with what a fill leaves of the symbol's one.
  unfoldable pub put_left :
      ℕ → String → D → Option (Position D) → Dict (Position D) → Dict (Position D)
  put_left now symbol price none positions = erase symbol positions
  put_left now symbol price (some p) positions = insert symbol (marked now price p) positions

  -- `updatePosition` on the side of the position.
  unfoldable pub increase : ℕ → Position D → String → ℤ → D → Broker D → Result (Broker D)
  unfolding add_to_position put_left
  increase now p symbol contracts price b = add_to_position p contracts price >>= λ p'.
      ok (record b { positions = put_left now symbol price (some p') b.positions })

  -- `updatePosition` on the other side.
  unfoldable pub reduce : ℕ → Position D → String → Side → ℤ → D → Broker D → Result (Broker D)
  unfolding realize_position_pnl reduce_position closed_contracts put_left
  reduce now p symbol side contracts price b =
      realize_position_pnl p price (closed_contracts p contracts) b >>= λ b'. ok (record b' {
        positions = put_left now symbol price (reduce_position p side contracts price) b'.positions;
      })

  unfoldable pub update_position : ℕ → String → Side → ℤ → D → Broker D → Result (Broker D)
  unfolding opened increase reduce
  update_position now symbol side contracts price b = elim (lookup symbol b.positions) [
    | none ↦ ok (record b {
      positions = insert symbol (opened now symbol side contracts price) b.positions;
    })
    | some p ↦
        if side_eq p.side side
        then increase now p symbol contracts price b
        else reduce now p symbol side contracts price b
  ]

  unfoldable pub get_positions : Broker D → List (Position D)
  get_positions b = map (λ e. e.1) b.positions

  unfoldable pub get_position : String → Broker D → Option (Position D)
  get_position symbol b = lookup symbol b.positions
