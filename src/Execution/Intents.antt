-- ===== src/Execution/Intents.antt =====
-- internal/risk/engine.go and internal/execution/simulated.go together: the intents that the risk
-- engine issues are orders that the simulated executor fills.
use quant_bot.Prelude.{◌≡◌, ◌∙◌, false, some, arith, Option-cases, inl, inr}
use quant_bot.Prelude.Int.{pos, ◌≤ℤ◌}
use quant_bot.Prelude.Dict.{lookup}
use quant_bot.Decimal.{Decimal, IsDecimal}
use quant_bot.Types.{
  ok, Signal, MarketEvent, OrderIntent, OrderResult, InstrumentSpec, get_instrument_spec,
}
use quant_bot.Risk.Engine.{Engine, Env, validate_and_size}
use quant_bot.Risk.Engine.Approval.{validate_and_size-IsApproved}
use quant_bot.Execution.Simulated.{
  SimulatedExecutor, Ids, is_set, place_order, fill_order, handle_open_order, handle_close_order,
  closed_by, entry_fill, slippage_amount, fill_of,
}
use quant_bot.Execution.Simulated.Orders.{IsFilled, place_order-Outcome, noted}

module _ {ℓ} {D : Type ℓ} ⦃d : Decimal D⦄ where
  open d use {of_int, mul}

  fill_order-ok :
      (ids : Ids) (order : OrderIntent D) (spec : InstrumentSpec D) (price : D)
      (s : SimulatedExecutor D)
      → (s' : SimulatedExecutor D) × (r : OrderResult D) × (fill_order ids order spec price s
          ≡ (s', ok r))
  unfolding fill_order handle_open_order handle_close_order
  fill_order-ok ids order spec price s =
      let slippage = slippage_amount s.cfg spec in
      let fill = entry_fill order.side price slippage in
      let commission = mul s.cfg.commission_per_side (of_int order.contracts) in
      let r =
        fill_of ids.order_uuid order.client_order_id order.contracts fill commission slippage
          s.current_time in
      elim (Option-cases (closed_by order s)) [
        | inl e ↦ ((handle_open_order ids order fill commission slippage s).0, r, ground (arith, e))
        | inr (p, e) ↦
            ((handle_close_order ids order p fill commission slippage s).0, r, ground (arith, e))
      ]

  place_order-ready :
      (ids : Ids) (order : OrderIntent D) (spec : InstrumentSpec D) (price : D)
      (s : SimulatedExecutor D)
      → is_set order.client_order_id s.used_order_ids ≡ false
      → get_instrument_spec {D = D} order.symbol ≡ some spec
      → lookup order.symbol s.current_price ≡ some price
      → place_order ids order s ≡ fill_order ids order spec price (noted order s)
  unfolding place_order
  place_order-ready ids order spec price s fresh known quoted = ground (arith, fresh, known, quoted)

  module _ (laws : IsDecimal D) where
    -- An intent that the risk engine issues is filled by an executor that has not seen its client
    -- order id and has a price for its symbol, whole and with at least one contract.
    pub issued-IsFilled :
        (env : Env) (signal : Signal D) (event : MarketEvent D) (e e' : Engine D)
        (intent : OrderIntent D) (ids : Ids) (s : SimulatedExecutor D) (price : D)
        → validate_and_size env signal event e ≡ (e', ok intent)
        → is_set intent.client_order_id s.used_order_ids ≡ false
        → lookup intent.symbol s.current_price ≡ some price
        → (s' : SimulatedExecutor D) × (r : OrderResult D) × (place_order ids intent s ≡ (s', ok r))
          × IsFilled intent r s s'
          × (pos 1 ≤ℤ r.filled_qty)
    issued-IsFilled env signal event e e' intent ids s price issued fresh quoted =
        let (trading, below, engine, (spec, stop, approved)) =
          validate_and_size-IsApproved laws env signal event e e' intent issued in
        let known : get_instrument_spec {D = D} intent.symbol ≡ some spec =
          rw approved.same_symbol approved.known in
        let (s', r, filled) = fill_order-ok ids intent spec price (noted intent s) in
        let placed : place_order ids intent s ≡ (s', ok r) =
          place_order-ready ids intent spec price s fresh known quoted ∙ filled in
        let done : IsFilled intent r s s' = rw placed at (place_order-Outcome ids intent s) in
        (s', r, placed, done, rw done.answer.2 approved.contracts_pos)
