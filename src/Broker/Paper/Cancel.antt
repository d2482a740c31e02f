-- ===== src/Broker/Paper/Cancel.antt =====
-- The paper broker's cancellation of an order.
use quant_bot.Prelude.{ℕ, ◌≡◌, refl, Option, some, ap, ◌∙◌, String, arith, Option-cases, inl, inr}
use quant_bot.Prelude.Int.{ℤ}
use quant_bot.Prelude.Dict.{Dict, lookup, insert, lookup-insert, insert-insert, str_eq_refl}
use quant_bot.Decimal.{Decimal}
use quant_bot.Types.{Result, ok, >>=-eq-ok, Result-cases}
use quant_bot.Broker.{cancelled, filled, Order}
use quant_bot.Broker.Paper.Positions.{update_position}
use quant_bot.Broker.Paper.Keyed.{update_position-orders}
use quant_bot.Broker.Paper.Account.{Broker, Running}
use quant_bot.Broker.Paper.Orders.{
  cancel_order, simulate_fill, set_order, filled_order, fill_price, fill_commission,
}

module _ {ℓ} {D : Type ℓ} ⦃d : Decimal D⦄ where
  pub cancel_order_kept :
      (now : ℕ) (id : String) (b : Broker D)
      → cancel_order now id b ≡ record b { orders = (cancel_order now id b).orders }
  unfolding cancel_order
  cancel_order_kept now id b = ground arith

  set_order-cancel_order :
      (now now' : ℕ) (id : String) (contracts : ℤ) (price commission : D) (b : Broker D)
      → set_order id (filled_order now contracts price commission) (cancel_order now' id b)
        ≡ set_order id (filled_order now contracts price commission) b
  unfolding cancel_order set_order filled_order
  set_order-cancel_order now now' id contracts price commission b =
      elim (Option-cases (lookup id b.orders)) [
        | inl e ↦ ground (arith, e)
        | inr (order, e) ↦
            let gone = record order { status = cancelled; updated_at = now' } in
            ground (
              arith,
              e,
              lookup-insert id id gone b.orders,
              str_eq_refl id,
              insert-insert id (filled_order now contracts price commission gone) gone b.orders,
            )
      ]

  simulate_fill-orders :
      (now : ℕ) (r : Running D) (b : Broker D) (orders : Dict (Order D))
      → ((contracts : ℤ) (price commission : D)
          → set_order r.order_id
              (filled_order now contracts price commission)
              (record b { orders = orders })
            ≡ set_order r.order_id (filled_order now contracts price commission) b)
      → simulate_fill now r (record b { orders = orders }) ≡ simulate_fill now r b
  unfolding simulate_fill fill_price fill_commission
  simulate_fill-orders now r b orders same =
      rw (same r.intent.contracts (fill_price b r.intent) (fill_commission b r.intent)) refl

  -- The order of a fill that goes through.
  simulate_fill-order :
      (now : ℕ) (r : Running D) (b b' : Broker D) (o : Order D)
      → lookup r.order_id b.orders ≡ some o
      → simulate_fill now r b ≡ ok b'
      → (o' : Order D) × (lookup r.order_id b'.orders ≡ some o')
        × (o'.status ≡ filled)
        × (o'.filled_qty ≡ r.intent.contracts)
  unfolding simulate_fill set_order filled_order
  simulate_fill-order now r b b' o found h =
      let price = fill_price b r.intent in
      let commission = fill_commission b r.intent in
      let change = filled_order now r.intent.contracts price commission in
      let b0 = set_order r.order_id change b in
      let (b1, moved, rest) =
        >>=-eq-ok (update_position now r.intent.symbol r.intent.side r.intent.contracts price b0) _
          h in
      let kept =
        update_position-orders now r.intent.symbol r.intent.side r.intent.contracts price b0 b1
          moved in
      let same : b'.orders ≡ b0.orders = ground (arith, rest, kept) in
      let put : b0.orders ≡ insert r.order_id (change o) b.orders = rw (found, set_order) refl in
      (
        change o,
        rw
            (
              same,
              put,
              lookup-insert r.order_id r.order_id (change o) b.orders,
              str_eq_refl r.order_id,
            )
            refl,
        refl,
        refl,
      )

  -- What a fill that goes through makes of its order, where the broker has it.
  pub IsCompleted : Running D → Option (Order D) → Result (Broker D) → Type ℓ
  IsCompleted r (some o) (ok b) =
      (o' : Order D) × (lookup r.order_id b.orders ≡ some o')
      × (o'.status ≡ filled)
      × (o'.filled_qty ≡ r.intent.contracts)
  IsCompleted r _ _ = Unit

  simulate_fill-IsCompleted :
      (now : ℕ) (r : Running D) (b : Broker D)
      → IsCompleted r (lookup r.order_id b.orders) (simulate_fill now r b)
  unfolding IsCompleted
  simulate_fill-IsCompleted now r b = elim (Option-cases (lookup r.order_id b.orders)) [
    | inl e ↦ rw e tt
    | inr (o, e) ↦ elim (Result-cases (simulate_fill now r b)) [
      | inl (b', f) ↦ rw (e, f) (simulate_fill-order now r b b' o e f)
      | inr (inl (reason, f)) ↦ rw (e, f) tt
      | inr (inr f) ↦ rw (e, f) tt
    ]
  ]

  -- The fill of an order that has been cancelled is the fill that it would have been without the
  -- cancellation, with its position, its cash and its result. Where it goes through and the broker
  -- has the order, the order ends as filled with all its contracts.
  pub simulate_fill-cancel_order :
      (now now' : ℕ) (r : Running D) (b : Broker D)
      → (simulate_fill now r (cancel_order now' r.order_id b) ≡ simulate_fill now r b)
        × IsCompleted r
            (lookup r.order_id b.orders)
            (simulate_fill now r (cancel_order now' r.order_id b))
  simulate_fill-cancel_order now now' r b =
      let kept = cancel_order_kept now' r.order_id b in
      let after = (cancel_order now' r.order_id b).orders in
      let same = simulate_fill-orders now r b after (λ contracts price commission.
        rw⁻¹ kept (set_order-cancel_order now now' r.order_id contracts price commission b)) in
      let equal = ap (simulate_fill now r) kept ∙ same in
      (equal, rw equal (simulate_fill-IsCompleted now r b))
