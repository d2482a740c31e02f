-- ===== src/Execution/Simulated/Calls.antt =====
-- Sequences of calls of the simulated executor: a client order id is used once.
use quant_bot.Prelude.{
  ◌≡◌, String, Bool, true, List, [], ◌∷◌, arith, All, inl, inr, if◌then◌else◌, str_eq, eq_iff,
  Option-cases, sym, ◌⊎◌,
}
use quant_bot.Prelude.Dict.{lookup, insert, lookup-insert, Dict}
use quant_bot.Decimal.{Decimal}
use quant_bot.Types.{err, duplicate_order, MarketEvent, OrderIntent, get_instrument_spec}
use quant_bot.Execution.Simulated.{
  SimulatedExecutor, Ids, is_set, update_market, check_exits, place_order, fill_order, cancel_order,
  reset, close_position, handle_open_order, handle_close_order,
}

-- The calls that change the executor, with their arguments.
pub data Call {ℓ} (D : Type ℓ) : Type ℓ where
  market : Ids → MarketEvent D → Call D
  place : Ids → OrderIntent D → Call D
  cancel : String → Call D
  clear : Call D

abbrev pub IsNoReset {ℓ} : {D : Type ℓ} → Call D → Type 0
IsNoReset clear = ⊥
IsNoReset _ = Unit

is_set-insert :
    (key id : String) (m : Dict Bool)
    → is_set id (insert key true m) ≡ (if str_eq key id then true else is_set id m)
is_set-insert key id m = ground (arith, lookup-insert key id true m)

module _ {ℓ} {D : Type ℓ} ⦃d : Decimal D⦄ where
  unfoldable pub call : Call D → SimulatedExecutor D → SimulatedExecutor D
  call (market ids event) s = (update_market ids event s).0
  call (place ids order) s = (place_order ids order s).0
  call (cancel id) s = (cancel_order id s).0
  call clear s = reset s

  unfoldable pub calls : List (Call D) → SimulatedExecutor D → SimulatedExecutor D
  calls [] s = s
  calls (c ∷ cs) s = calls cs (call c s)

  update_market_ids :
      (ids : Ids) (event : MarketEvent D) (s : SimulatedExecutor D)
      → (update_market ids event s).0.used_order_ids ≡ s.used_order_ids
  unfolding update_market check_exits close_position
  update_market_ids ids event s = ground arith

  fill_order_ids :
      (ids : Ids) (order : OrderIntent D) (spec : _) (price : D) (s : SimulatedExecutor D)
      → (fill_order ids order spec price s).0.used_order_ids ≡ s.used_order_ids
  unfolding fill_order handle_open_order handle_close_order
  fill_order_ids ids order spec price s = ground arith

  place_order_ids :
      (ids : Ids) (order : OrderIntent D) (s : SimulatedExecutor D)
      → (place_order ids order s).0.used_order_ids ≡ (
          if is_set order.client_order_id s.used_order_ids
          then s.used_order_ids
          else insert order.client_order_id true s.used_order_ids)
  unfolding place_order
  place_order_ids ids order s =
      let s' = record s { used_order_ids = insert order.client_order_id true s.used_order_ids } in
      elim (Option-cases (get_instrument_spec {D = D} order.symbol)) [
        | inl e ↦ ground (arith, e)
        | inr (spec, e) ↦ elim (Option-cases (lookup order.symbol s.current_price)) [
          | inl f ↦ ground (arith, e, f)
          | inr (price, f) ↦ ground (arith, e, f, fill_order_ids ids order spec price s')
        ]
      ]

  -- Whatever a placement comes to, its client order id is used, and no id is given back.
  place_order_used :
      (ids : Ids) (order : OrderIntent D) (id : String) (s : SimulatedExecutor D)
      → (is_set id s.used_order_ids ≡ true) ⊎ (order.client_order_id ≡ id)
      → is_set id (place_order ids order s).0.used_order_ids ≡ true
  place_order_used ids order id s h = rw (place_order_ids ids order s) (
      ground (
        arith,
        h,
        eq_iff order.client_order_id id,
        is_set-insert order.client_order_id id s.used_order_ids,
      ))

  cancel_order_ids :
      (id : String) (s : SimulatedExecutor D)
      → (cancel_order id s).0.used_order_ids ≡ s.used_order_ids
  unfolding cancel_order
  cancel_order_ids id s = ground arith

  call_ids :
      (c : Call D) (id : String) (s : SimulatedExecutor D)
      → IsNoReset c
      → is_set id s.used_order_ids ≡ true
      → is_set id (call c s).used_order_ids ≡ true
  unfolding call
  call_ids (market ids event) id s k h = rw (update_market_ids ids event s) h
  call_ids (place ids order) id s k h = place_order_used ids order id s (inl h)
  call_ids (cancel other) id s k h = rw (cancel_order_ids other s) h
  call_ids clear id s k h = absurd k

  calls_ids :
      (cs : List (Call D)) (id : String) (s : SimulatedExecutor D)
      → All IsNoReset cs
      → is_set id s.used_order_ids ≡ true
      → is_set id (calls cs s).used_order_ids ≡ true
  unfolding calls
  calls_ids [] id s k h = h
  calls_ids (c ∷ cs) id s (k, ks) h = calls_ids cs id (call c s) ks (call_ids c id s k h)

  place_order_duplicate :
      (ids : Ids) (order : OrderIntent D) (s : SimulatedExecutor D)
      → is_set order.client_order_id s.used_order_ids ≡ true
      → place_order ids order s ≡ (s, err duplicate_order)
  unfolding place_order
  place_order_duplicate ids order s h = rw h

  -- Once an order has been placed, whatever that came to, every later order with the same client
  -- order id is refused as a duplicate and changes nothing, whatever was called in between but
  -- `Reset`.
  pub place_order_twice :
      (ids ids' : Ids) (order order' : OrderIntent D) (cs : List (Call D)) (s : SimulatedExecutor D)
      → order'.client_order_id ≡ order.client_order_id
      → All IsNoReset cs
      → let s' = calls cs (place_order ids order s).0 in
        place_order ids' order' s' ≡ (s', err duplicate_order)
  place_order_twice ids ids' order order' cs s e k =
      place_order_duplicate ids' order' (calls cs (place_order ids order s).0) (
        calls_ids cs order'.client_order_id (place_order ids order s).0 k
          (place_order_used ids order order'.client_order_id s (inr (sym e))))
