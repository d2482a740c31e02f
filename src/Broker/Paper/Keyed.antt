-- ===== src/Broker/Paper/Keyed.antt =====
-- The paper broker of internal/broker/paper/paper.go lists each order under its identifier.
use quant_bot.Prelude.{
  ℕ, ◌+◌, ◌≡◌, refl, String, Option-cases, Bool-cases, inl, inr, some, List, [], ◌∷◌, arith, str_eq,
}
use text.Mathlib.TextEquality.{eq_iff}
use quant_bot.Prelude.Int.{ℤ}
use quant_bot.Prelude.Dict.{Dict, lookup, insert, lookup-insert}
use quant_bot.Decimal.{Decimal}
use quant_bot.Types.{ok, >>=-eq-ok, Side, MarketEvent, OrderIntent}
use quant_bot.Broker.{Order, submitted, cancelled}
use quant_bot.Broker.Paper.Account.{
  Config, Broker, Running, new_broker, is_connected, connect, disconnect, subscribe_market_data,
  unsubscribe_market_data, publish,
}
use quant_bot.Broker.Paper.Positions.{
  update_position, increase, reduce, realize_position_pnl, update_position_pnl,
  simulate_market_data,
}
use quant_bot.Broker.Paper.Orders.{
  place_order, submit, new_order, simulate_fill, set_order, filled_order, cancel_order, fill_price,
  fill_commission, status_eq, paper_order_id,
}
use quant_bot.Broker.Paper.Calls.{
  Call, connects, disconnects, subscribe, unsubscribe, bar, order, finish, leave, cancel, call,
  calls, pick,
}

module _ {ℓ} {D : Type ℓ} ⦃d : Decimal D⦄ where
  -- Each order is listed under its identifier.
  unfoldable pub IsKeyed : Dict (Order D) → Type ℓ
  IsKeyed orders = (key : String) (o : Order D) → lookup key orders ≡ some o → o.order_id ≡ key

  IsKeyed-lookup :
      (key : String) (o : Order D) (orders : Dict (Order D))
      → IsKeyed orders
      → lookup key orders ≡ some o
      → o.order_id ≡ key
  unfolding IsKeyed
  IsKeyed-lookup key o orders keyed e = keyed key o e

  insert-IsKeyed :
      (key : String) (o : Order D) (orders : Dict (Order D))
      → IsKeyed orders
      → o.order_id ≡ key
      → IsKeyed (insert key o orders)
  unfolding IsKeyed
  insert-IsKeyed key o orders keyed e other p f = elim (Bool-cases (str_eq key other)) [
    | inl s ↦ ground (arith, f, lookup-insert key other o orders, s, e, eq_iff key other)
    | inr s ↦ keyed other p (ground (arith, f, lookup-insert key other o orders, s))
  ]

  set_order-IsKeyed :
      (id : String) (now : ℕ) (contracts : ℤ) (price commission : D) (b : Broker D)
      → IsKeyed b.orders
      → IsKeyed (set_order id (filled_order now contracts price commission) b).orders
  unfolding set_order filled_order
  set_order-IsKeyed id now contracts price commission b keyed =
      elim (Option-cases (lookup id b.orders)) [
        | inl e ↦ rw (e, set_order) keyed
        | inr (o, e) ↦
            rw (e, set_order)
              (insert-IsKeyed id (filled_order now contracts price commission o) b.orders keyed
                (IsKeyed-lookup id o b.orders keyed e))
      ]

  cancel_order-IsKeyed :
      (now : ℕ) (id : String) (b : Broker D)
      → IsKeyed b.orders
      → IsKeyed (cancel_order now id b).orders
  unfolding cancel_order
  cancel_order-IsKeyed now id b keyed = elim (Option-cases (lookup id b.orders)) [
    | inl e ↦ rw (e, cancel_order) keyed
    | inr (o, e) ↦ elim (Bool-cases (status_eq o.status submitted)) [
      | inl f ↦
          rw (e, f, cancel_order)
            (insert-IsKeyed id (record o { status = cancelled; updated_at = now }) b.orders keyed
              (IsKeyed-lookup id o b.orders keyed e))
      | inr f ↦ rw (e, f, cancel_order) keyed
    ]
  ]

  pub update_position-orders :
      (now : ℕ) (symbol : String) (side : Side) (contracts : ℤ) (price : D) (b b' : Broker D)
      → update_position now symbol side contracts price b ≡ ok b'
      → b'.orders ≡ b.orders
  unfolding update_position increase reduce realize_position_pnl
  update_position-orders now symbol side contracts price b b' h = ground (arith, h)

  new_order-id :
      (now : ℕ) (id : String) (intent : OrderIntent D) → (new_order now id intent).order_id ≡ id
  unfolding new_order
  new_order-id now id intent = refl

  simulate_fill-IsKeyed :
      (now : ℕ) (r : Running D) (b b' : Broker D)
      → simulate_fill now r b ≡ ok b'
      → IsKeyed b.orders
      → IsKeyed b'.orders
  unfolding simulate_fill
  simulate_fill-IsKeyed now r b b' h keyed =
      let price = fill_price b r.intent in
      let commission = fill_commission b r.intent in
      let b0 = set_order r.order_id (filled_order now r.intent.contracts price commission) b in
      let (b1, filled, rest) =
        >>=-eq-ok (update_position now r.intent.symbol r.intent.side r.intent.contracts price b0) _
          h in
      let kept =
        update_position-orders now r.intent.symbol r.intent.side r.intent.contracts price b0 b1
          filled in
      let is : b'.orders ≡ b0.orders = ground (arith, rest, kept) in
      rw is (set_order-IsKeyed r.order_id now r.intent.contracts price commission b keyed)

  place_order-IsKeyed :
      (now : ℕ) (intent : OrderIntent D) (b : Broker D)
      → IsKeyed b.orders
      → IsKeyed (place_order now intent b).0.orders
  unfolding place_order submit
  place_order-IsKeyed now intent b keyed = elim (Bool-cases (is_connected b)) [
    | inr f ↦ rw (f, place_order) keyed
    | inl f ↦
        let id = paper_order_id (b.next_order_id + 1) in
        rw (f, place_order)
          (insert-IsKeyed id (new_order now id intent) b.orders keyed (new_order-id now id intent))
  ]

  market-orders :
      (now : ℕ) (event : MarketEvent D) (b b' : Broker D)
      → simulate_market_data now event b ≡ ok b'
      → b'.orders ≡ b.orders
  unfolding simulate_market_data publish update_position_pnl
  market-orders now event b b' h = ground (arith, h)

  call-IsKeyed :
      (c : Call D) (b b' : Broker D) (fee : D)
      → call c b ≡ ok (b', fee)
      → IsKeyed b.orders
      → IsKeyed b'.orders
  unfolding call connect disconnect subscribe_market_data unsubscribe_market_data
  call-IsKeyed connects b b' fee h keyed =
      let is : b'.orders ≡ b.orders = ground (arith, h) in rw is keyed
  call-IsKeyed disconnects b b' fee h keyed =
      let is : b'.orders ≡ b.orders = ground (arith, h) in rw is keyed
  call-IsKeyed (subscribe s) b b' fee h keyed =
      let is : b'.orders ≡ b.orders = ground (arith, h) in rw is keyed
  call-IsKeyed (unsubscribe s) b b' fee h keyed =
      let is : b'.orders ≡ b.orders = ground (arith, h) in rw is keyed
  call-IsKeyed (bar now event) b b' fee h keyed =
      let (b1, moved, rest) = >>=-eq-ok (simulate_market_data now event b) _ h in
      let kept = market-orders now event b b1 moved in
      let is : b'.orders ≡ b.orders = ground (arith, rest, kept) in rw is keyed
  call-IsKeyed (order now intent) b b' fee h keyed =
      let is : b' ≡ (place_order now intent b).0 = ground (arith, h) in
      rw is (place_order-IsKeyed now intent b keyed)
  call-IsKeyed (finish now i) b b' fee h keyed = elim (Option-cases (pick i b.running)) [
    | inl e ↦ let is : b' ≡ b = ground (arith, h, e) in rw is keyed
    | inr ((r, rest), e) ↦
        let b0 = record b { running = rest } in
        let opened = rw (e, call) at h in
        let (b1, filled, last) = >>=-eq-ok (simulate_fill now r b0) _ opened in
        let is : b' ≡ b1 = cc last in rw is (simulate_fill-IsKeyed now r b0 b1 filled keyed)
  ]
  call-IsKeyed (leave i) b b' fee h keyed =
      let is : b'.orders ≡ b.orders = ground (arith, h) in rw is keyed
  call-IsKeyed (cancel now id) b b' fee h keyed =
      let is : b' ≡ cancel_order now id b = ground (arith, h) in
      rw is (cancel_order-IsKeyed now id b keyed)

  calls-IsKeyed_from :
      (cs : List (Call D)) (b b' : Broker D) (fees : D)
      → calls cs b ≡ ok (b', fees)
      → IsKeyed b.orders
      → IsKeyed b'.orders
  unfolding calls
  calls-IsKeyed_from [] b b' fees h keyed = let is : b' ≡ b = cc h in rw is keyed
  calls-IsKeyed_from (c ∷ cs) b b' fees h keyed =
      let ((b1, fee), first, more) = >>=-eq-ok (call c b) _ h in
      let ((b2, fees'), rest, last) = >>=-eq-ok (calls cs b1) _ more in
      let is : b' ≡ b2 = cc last in
      rw is (calls-IsKeyed_from cs b1 b2 fees' rest (call-IsKeyed c b b1 fee first keyed))

  -- A new broker keeps it through any calls.
  pub calls-IsKeyed :
      (cs : List (Call D)) (cfg : Config D) (b : Broker D) (fees : D)
      → calls cs (new_broker cfg) ≡ ok (b, fees)
      → IsKeyed b.orders
  unfolding new_broker IsKeyed lookup
  calls-IsKeyed cs cfg b fees h =
      calls-IsKeyed_from cs (new_broker cfg) b fees h (λ key o e. absurd (cc e))
