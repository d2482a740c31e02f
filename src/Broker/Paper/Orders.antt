-- ===== src/Broker/Paper/Orders.antt =====
-- internal/broker/paper/paper.go: orders, from the placement to the fill.
use quant_bot.Prelude.{
  ℕ, zero, suc, ◌+◌, ◌/◌, ◌%◌, String, Bool, true, false, ◌||◌, none, some, List, [], ◌∷◌, ◌++◌,
  if◌then◌else◌, ltb,
}
use quant_bot.Prelude.Int.{ℤ, pos}
use quant_bot.Prelude.Dict.{Dict, lookup, insert}
use Prim.Native.String as Str
use Prim.Native.String.{slice}
use quant_bot.Decimal.{Decimal}
use quant_bot.Types.{
  Result, ok, err, ◌>>=◌, not_connected, long, side_eq, OrderIntent, spec_or_zero,
}
use quant_bot.Broker.{
  market, OrderStatus, submitted, filled, partial, pending, cancelled, rejected, Order, OrderResult,
}
use quant_bot.Broker.Paper.Account.{Running, Broker, is_connected}
use quant_bot.Broker.Paper.Positions.{update_position}

abbrev pub status_eq : OrderStatus → OrderStatus → Bool
status_eq pending pending = true
status_eq submitted submitted = true
status_eq filled filled = true
status_eq partial partial = true
status_eq cancelled cancelled = true
status_eq rejected rejected = true
status_eq _ _ = false

-- `%d` of a natural number, by its digits; a number has fewer digits than the fuel.
abbrev digits_of : ℕ → ℕ → String
digits_of zero n = ""
digits_of (suc fuel) n =
    let last = slice "0123456789" (n % 10) (n % 10 + 1) in
    let rest = digits_of fuel (n / 10) in if ltb n 10 then last else Str.◌++◌ rest last

unfoldable pub paper_order_id : ℕ → String
paper_order_id n = Str.◌++◌ "PAPER-" (digits_of (suc n) n)

module _ {ℓ} {D : Type ℓ} ⦃d : Decimal D⦄ where
  open d use {zero_dec, of_int, literal, add, sub, mul, neg}

  unfoldable pub new_order : ℕ → String → OrderIntent D → Order D
  new_order now id intent = record {
    order_id = id;
    client_order_id = intent.client_order_id;
    symbol = intent.symbol;
    side = intent.side;
    quantity = intent.contracts;
    order_type = market;
    limit_price = zero_dec;
    stop_price = zero_dec;
    status = submitted;
    filled_qty = pos 0;
    avg_fill_price = zero_dec;
    commission = zero_dec;
    created_at = now;
    updated_at = now;
  }

  -- `PlaceOrder` of a connected broker.
  unfoldable pub submit : ℕ → OrderIntent D → Broker D → Broker D × Result OrderResult
  unfolding paper_order_id new_order
  submit now intent b =
      let n = b.next_order_id + 1 in
      let id = paper_order_id n in
      (
        record b {
          next_order_id = n;
          orders = insert id (new_order now id intent) b.orders;
          running = b.running ++ (record { order_id = id; intent = intent } ∷ []);
        },
        ok (record {
          order_id = id;
          client_order_id = intent.client_order_id;
          status = submitted;
          message = "";
          submitted_at = now;
        }),
      )

  unfoldable pub place_order : ℕ → OrderIntent D → Broker D → Broker D × Result OrderResult
  place_order now intent b = if is_connected b then submit now intent b else (b, err not_connected)

  -- The price of the fill: the market's, or the intent's where there is none, moved against us.
  unfoldable pub fill_price : Broker D → OrderIntent D → D
  fill_price b intent =
      let price : D = elim (lookup intent.symbol b.prices) [
        | none ↦ intent.entry_price
        | some m ↦ m
      ] in
      let slippage =
        mul (spec_or_zero {D = D} intent.symbol).tick_size (of_int b.cfg.slippage_ticks) in
      if side_eq intent.side long then add price slippage else sub price slippage

  unfoldable pub fill_commission : Broker D → OrderIntent D → D
  fill_commission b intent = mul b.cfg.commission_per_side (of_int intent.contracts)

  unfoldable pub filled_order : ℕ → ℤ → D → D → Order D → Order D
  filled_order now contracts price commission order = record order {
    status = filled;
    filled_qty = contracts;
    avg_fill_price = price;
    commission = commission;
    updated_at = now;
  }

  -- The order through its pointer, which the map of orders shares.
  unfoldable pub set_order : String → (Order D → Order D) → Broker D → Broker D
  set_order id change b = elim (lookup id b.orders) [
    | none ↦ b
    | some order ↦ record b { orders = insert id (change order) b.orders }
  ]

  -- `simulateFill` of a goroutine once its delay is over.
  unfoldable pub simulate_fill : ℕ → Running D → Broker D → Result (Broker D)
  unfolding fill_price fill_commission set_order filled_order
  simulate_fill now r b =
      let price = fill_price b r.intent in
      let commission = fill_commission b r.intent in
      update_position now r.intent.symbol r.intent.side r.intent.contracts price
        (set_order r.order_id (filled_order now r.intent.contracts price commission) b)
      >>= λ b'. ok (record b' { cash = sub b'.cash commission })

  unfoldable pub cancel_order : ℕ → String → Broker D → Broker D
  cancel_order now id b = elim (lookup id b.orders) [
    | none ↦ b
    | some order ↦
        if status_eq order.status submitted
        then record b {
          orders = insert id (record order { status = cancelled; updated_at = now }) b.orders;
        }
        else b
  ]

  abbrev pub is_open : Order D → Bool
  is_open o = status_eq o.status submitted || status_eq o.status partial

  unfoldable pub open_orders : Dict (Order D) → List (Order D)
  open_orders [] = []
  open_orders ((id, o) ∷ rest) = if is_open o then o ∷ open_orders rest else open_orders rest

  unfoldable pub get_open_orders : Broker D → List (Order D)
  get_open_orders b = open_orders b.orders
