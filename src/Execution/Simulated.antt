-- ===== src/Execution/Simulated.antt =====
-- internal/execution/simulated.go: the executor that the backtest trades on. A method takes the
-- executor and returns the new one; the random identifiers that it asks for come in `Ids`. The
-- handler of fills runs in goroutines of its own, which only read the results: it is left out.
pub mod Calls
pub mod RoundTrip
pub mod Market
pub mod Orders
use quant_bot.Prelude.{
  ℕ, zero, String, Bool, true, false, ◌&&◌, not, Option, none, some, List, [], ◌∷◌, ◌++◌, map,
  if◌then◌else◌,
}
use quant_bot.Prelude.Int.{ℤ, pos, ltb_ℤ}
use quant_bot.Prelude.Dict.{Dict, lookup, insert, erase}
use Prim.Native.String as Str
use quant_bot.Decimal.{Decimal}
use quant_bot.Types.{
  Result, ok, err, Side, flat, long, short, opposite, side_eq, filled, duplicate_order,
  unknown_symbol, no_market_data, order_not_found, MarketEvent, OrderIntent, OrderResult, Position,
  Trade, InstrumentSpec, get_instrument_spec, spec_or_zero, no_spec,
}

pub record SimulatedConfig {ℓ} (D : Type ℓ) : Type ℓ where
  pub slippage_ticks : ℤ
  pub commission_per_side : D
  pub fill_delay_ms : ℤ

pub record SimulatedExecutor {ℓ} (D : Type ℓ) : Type ℓ where
  pub cfg : SimulatedConfig D
  pub positions : Dict (Position D)
  pub open_orders : Dict (OrderIntent D)
  pub used_order_ids : Dict Bool
  pub order_history : List (OrderResult D)
  pub trades : List (Trade D)
  pub current_time : ℕ
  pub current_price : Dict D

-- The identifiers that a call makes: of the trade or the position, and of the order.
pub record Ids : Type 0 where
  pub object_uuid : String
  pub order_uuid : String

-- `m[key]` of a map of Booleans.
abbrev pub is_set : String → Dict Bool → Bool
is_set key m = elim (lookup key m) [ none ↦ false | some b ↦ b ]

module _ {ℓ} {D : Type ℓ} ⦃d : Decimal D⦄ where
  open d use {
    zero_dec, of_int, literal, add, sub, mul, is_zero, less_than_or_equal, greater_than_or_equal,
  }

  unfoldable pub default_simulated_config : SimulatedConfig D
  default_simulated_config = record {
    slippage_ticks = pos 1;
    commission_per_side = literal 62 2;
    fill_delay_ms = pos 0;
  }

  unfoldable pub new_simulated_executor : SimulatedConfig D → SimulatedExecutor D
  new_simulated_executor cfg = record {
    cfg = cfg;
    positions = [];
    open_orders = [];
    used_order_ids = [];
    order_history = [];
    trades = [];
    current_time = 0;
    current_price = [];
  }

  -- The slippage of a fill.
  unfoldable pub slippage_amount : SimulatedConfig D → InstrumentSpec D → D
  slippage_amount cfg spec = mul spec.tick_size (of_int cfg.slippage_ticks)

  -- The price of a sale for a long side and of a purchase for another one, moved against us.
  unfoldable pub exit_fill : Side → D → D → D
  exit_fill long price slippage = sub price slippage
  exit_fill _ price slippage = add price slippage

  -- The price of a purchase for a long side and of a sale for another one, moved against us.
  unfoldable pub entry_fill : Side → D → D → D
  entry_fill long price slippage = add price slippage
  entry_fill _ price slippage = sub price slippage

  -- The gross profit of the position when it leaves at the price.
  unfoldable pub gross_profit : Position D → D → D → D
  gross_profit p exit_price point_value = elim p.side [
    | long ↦ mul (mul (sub exit_price p.entry_price) point_value) (of_int p.contracts)
    | flat ↦ mul (mul (sub p.entry_price exit_price) point_value) (of_int p.contracts)
    | short ↦ mul (mul (sub p.entry_price exit_price) point_value) (of_int p.contracts)
  ]

  -- The trade record of a position that leaves at the price.
  unfoldable pub trade_of : String → Position D → D → ℕ → D → D → String → Trade D
  trade_of uuid p exit_price now gross commission signal_id = record {
    id = uuid;
    symbol = p.symbol;
    side = p.side;
    contracts = p.contracts;
    entry_price = p.entry_price;
    exit_price = exit_price;
    entry_time = p.entry_time;
    exit_time = now;
    gross_pl = gross;
    commission = commission;
    net_pl = sub gross commission;
    r_multiple = zero_dec;
    signal_id = signal_id;
    strategy_name = "";
  }

  -- The result of an order that is filled whole.
  unfoldable pub fill_of : String → String → ℤ → D → D → D → ℕ → OrderResult D
  fill_of uuid client_order_id contracts price commission slippage now = record {
    order_id = uuid;
    client_order_id = client_order_id;
    status = filled;
    filled_qty = contracts;
    avg_fill_price = price;
    commission = commission;
    slippage = slippage;
    filled_at = now;
    reject_reason = "";
  }

  unfoldable pub close_position :
      Ids → Position D → D → String → SimulatedExecutor D → SimulatedExecutor D × OrderResult D
  unfolding slippage_amount exit_fill gross_profit trade_of fill_of
  close_position ids p level reason s =
      let spec = spec_or_zero {D = D} p.symbol in
      let slippage = slippage_amount s.cfg spec in
      let exit_price = exit_fill p.side level slippage in
      let commission = mul s.cfg.commission_per_side (of_int p.contracts) in
      let trade =
        trade_of ids.object_uuid p exit_price s.current_time
          (gross_profit p exit_price spec.point_value) commission "" in
      let result =
        fill_of ids.order_uuid (Str.◌++◌ (Str.◌++◌ reason "-") p.id) p.contracts exit_price
          commission slippage s.current_time in
      (
        record s {
          trades = s.trades ++ (trade ∷ []);
          positions = erase p.symbol s.positions;
          order_history = s.order_history ++ (result ∷ []);
        },
        result,
      )

  -- The level at which the bar takes a position out, and the reason: the stop loss comes first.
  unfoldable pub exit_level : MarketEvent D → Position D → Option (D × String)
  exit_level event p = elim p.side [
    | flat ↦ none
    | long ↦
        if not (is_zero p.stop_loss) && less_than_or_equal event.low p.stop_loss
        then some (p.stop_loss, "stop_loss")
        else if not (is_zero p.take_profit) && greater_than_or_equal event.high p.take_profit
        then some (p.take_profit, "take_profit")
        else none
    | short ↦
        if not (is_zero p.stop_loss) && greater_than_or_equal event.high p.stop_loss
        then some (p.stop_loss, "stop_loss")
        else if not (is_zero p.take_profit) && less_than_or_equal event.low p.take_profit
        then some (p.take_profit, "take_profit")
        else none
  ]

  unfoldable pub check_exits :
      Ids
      → MarketEvent D
      → Position D
      → SimulatedExecutor D
      → SimulatedExecutor D × List (OrderResult D)
  unfolding exit_level close_position
  check_exits ids event p s = elim (exit_level event p) [
    | none ↦ (s, [])
    | some (level, reason) ↦ let (s', fill) = close_position ids p level reason s in (s', fill ∷ [])
  ]

  unfoldable pub update_market :
      Ids → MarketEvent D → SimulatedExecutor D → SimulatedExecutor D × List (OrderResult D)
  unfolding check_exits
  update_market ids event s =
      let s' = record s {
        current_time = event.timestamp;
        current_price = insert event.symbol event.close s.current_price;
      } in
      elim (lookup event.symbol s.positions) [
        | none ↦ (s', [])
        | some p ↦ if ltb_ℤ (pos 0) p.contracts then check_exits ids event p s' else (s', [])
      ]

  -- The position that an order opens.
  unfoldable pub opened_by : String → OrderIntent D → D → ℕ → Position D
  opened_by uuid order price now = record {
    id = uuid;
    symbol = order.symbol;
    side = order.side;
    contracts = order.contracts;
    entry_price = price;
    entry_time = now;
    stop_loss = order.stop_loss;
    take_profit = order.take_profit;
    unrealized_pl = zero_dec;
    realized_pl = zero_dec;
  }

  unfoldable pub handle_open_order :
      Ids
      → OrderIntent D
      → D
      → D
      → D
      → SimulatedExecutor D
      → SimulatedExecutor D × Result (OrderResult D)
  unfolding opened_by fill_of
  handle_open_order ids order price commission slippage s =
      let p = opened_by ids.object_uuid order price s.current_time in
      let result =
        fill_of ids.order_uuid order.client_order_id order.contracts price commission slippage
          s.current_time in
      (
        record s {
          positions = insert order.symbol p s.positions;
          order_history = s.order_history ++ (result ∷ []);
        },
        ok result,
      )

  unfoldable pub handle_close_order :
      Ids
      → OrderIntent D
      → Position D
      → D
      → D
      → D
      → SimulatedExecutor D
      → SimulatedExecutor D × Result (OrderResult D)
  unfolding gross_profit trade_of fill_of
  handle_close_order ids order p price commission slippage s =
      let spec = spec_or_zero {D = D} order.symbol in
      let trade =
        trade_of ids.object_uuid p price s.current_time (gross_profit p price spec.point_value)
          commission order.signal_id in
      let result =
        fill_of ids.order_uuid order.client_order_id order.contracts price commission slippage
          s.current_time in
      (
        record s {
          trades = s.trades ++ (trade ∷ []);
          positions = erase order.symbol s.positions;
          order_history = s.order_history ++ (result ∷ []);
        },
        ok result,
      )

  -- The position that the order closes: the one of its symbol, on the opposite side.
  unfoldable pub closed_by : OrderIntent D → SimulatedExecutor D → Option (Position D)
  closed_by order s = elim (lookup order.symbol s.positions) [
    | none ↦ none
    | some p ↦ if side_eq p.side (opposite order.side) then some p else none
  ]

  -- `PlaceOrder` from the fill price on.
  unfoldable pub fill_order :
      Ids
      → OrderIntent D
      → InstrumentSpec D
      → D
      → SimulatedExecutor D
      → SimulatedExecutor D × Result (OrderResult D)
  unfolding slippage_amount entry_fill closed_by
  fill_order ids order spec market_price s =
      let slippage = slippage_amount s.cfg spec in
      let price = entry_fill order.side market_price slippage in
      let commission = mul s.cfg.commission_per_side (of_int order.contracts) in
      elim (closed_by order s) [
        | some p ↦ handle_close_order ids order p price commission slippage s
        | none ↦ handle_open_order ids order price commission slippage s
      ]

  unfoldable pub place_order :
      Ids → OrderIntent D → SimulatedExecutor D → SimulatedExecutor D × Result (OrderResult D)
  place_order ids order s =
      if is_set order.client_order_id s.used_order_ids
      then (s, err duplicate_order)
      else let s' = record s {
        used_order_ids = insert order.client_order_id true s.used_order_ids;
      } in
        elim (get_instrument_spec {D = D} order.symbol) [
          | none ↦ (s', err (unknown_symbol order.symbol))
          | some spec ↦ elim (lookup order.symbol s'.current_price) [
            | none ↦ (s', err (no_market_data order.symbol))
            | some market_price ↦ fill_order ids order spec market_price s'
          ]
        ]

  unfoldable pub cancel_order :
      String → SimulatedExecutor D → SimulatedExecutor D × Result (Unit {0})
  cancel_order client_order_id s = elim (lookup client_order_id s.open_orders) [
    | none ↦ (s, err (order_not_found client_order_id))
    | some _ ↦ (record s { open_orders = erase client_order_id s.open_orders }, ok tt)
  ]

  -- The position, with its unrealised profit where the symbol has a price.
  unfoldable pub get_position : String → SimulatedExecutor D → Option (Position D)
  get_position symbol s = elim (lookup symbol s.positions) [
    | none ↦ none
    | some p ↦ elim (lookup symbol s.current_price) [
      | none ↦ some p
      | some price ↦ some (record p {
        unrealized_pl = gross_profit p price (spec_or_zero {D = D} symbol).point_value;
      })
    ]
  ]

  unfoldable pub get_open_orders : SimulatedExecutor D → List (OrderIntent D)
  get_open_orders s = map (λ e. e.1) s.open_orders

  -- `Reset`: the configuration and the time stay.
  unfoldable pub reset : SimulatedExecutor D → SimulatedExecutor D
  reset s = record s {
    positions = [];
    open_orders = [];
    used_order_ids = [];
    order_history = [];
    trades = [];
    current_price = [];
  }
