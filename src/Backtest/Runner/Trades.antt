-- ===== src/Backtest/Runner/Trades.antt =====
-- What bars and orders do to the trades of the executor of internal/execution/simulated.go.
use quant_bot.Prelude.{
  ◌≡◌, refl, sym, ◌⊎◌, inl, inr, String, Bool-cases, Option-cases, List, [], ◌∷◌, ◌++◌, append-nil,
}
use quant_bot.Prelude.Int.{pos, ltb_ℤ}
use quant_bot.Prelude.Dict.{lookup}
use quant_bot.Decimal.{Decimal}
use quant_bot.Types.{
  MarketEvent, OrderIntent, OrderResult, Position, Trade, InstrumentSpec, get_instrument_spec,
}
use quant_bot.Execution.Simulated as Simulated
use quant_bot.Execution.Simulated.{SimulatedExecutor, Ids}
use quant_bot.Execution.Simulated.Orders.{noted}

module _ {ℓ} {D : Type ℓ} ⦃d : Decimal D⦄ where
  open d use {zero_dec, add}

  -- No trade and no fill, or one of each.
  abbrev pub AtMostOne : List (Trade D) → SimulatedExecutor D × List (OrderResult D) → Type ℓ
  AtMostOne trades r =
      ((r.0.trades ≡ trades) × (r.1 ≡ []))
      ⊎ ((trade : Trade D) × (fill : OrderResult D) × (r.0.trades ≡ trades ++ (trade ∷ []))
          × (r.1 ≡ fill ∷ []))

  close_position_trades :
      (ids : Ids) (p : Position D) (level : D) (reason : String) (s : SimulatedExecutor D)
      → (trade : Trade D) × ((Simulated.close_position ids p level reason s).0.trades
          ≡ s.trades ++ (trade ∷ []))
  unfolding Simulated.close_position
  close_position_trades ids p level reason s = (_, refl)

  check_exits_trades :
      (ids : Ids) (event : MarketEvent D) (p : Position D) (s : SimulatedExecutor D)
      → AtMostOne s.trades (Simulated.check_exits ids event p s)
  unfolding Simulated.check_exits
  check_exits_trades ids event p s = elim (Option-cases (Simulated.exit_level event p)) [
    | inl e ↦ inl (rw (e, Simulated.check_exits) refl, rw (e, Simulated.check_exits) refl)
    | inr ((level, reason), e) ↦
        let (trade, appended) = close_position_trades ids p level reason s in
        inr (
          trade,
          (Simulated.close_position ids p level reason s).1,
          rw (e, Simulated.check_exits) appended,
          rw (e, Simulated.check_exits) refl,
        )
  ]

  pub update_market_trades :
      (ids : Ids) (event : MarketEvent D) (s : SimulatedExecutor D)
      → AtMostOne s.trades (Simulated.update_market ids event s)
  unfolding Simulated.update_market
  update_market_trades ids event s = elim (Option-cases (lookup event.symbol s.positions)) [
    | inl e ↦ inl (rw (e, Simulated.update_market) refl, rw (e, Simulated.update_market) refl)
    | inr (p, e) ↦ elim (Bool-cases (ltb_ℤ (pos 0) p.contracts)) [
      | inr f ↦
          inl (rw (e, f, Simulated.update_market) refl, rw (e, f, Simulated.update_market) refl)
      | inl f ↦ rw (e, f, Simulated.update_market) (check_exits_trades ids event p _)
    ]
  ]

  handle_close_order_trades :
      (ids : Ids) (order : OrderIntent D) (p : Position D) (price commission slippage : D)
      (s : SimulatedExecutor D)
      → (closes : List (Trade D)) × ((Simulated.handle_close_order ids order p price commission
            slippage s).0.trades
          ≡ s.trades ++ closes)
  unfolding Simulated.handle_close_order
  handle_close_order_trades ids order p price commission slippage s = (_, refl)

  fill_order_trades :
      (ids : Ids) (order : OrderIntent D) (spec : InstrumentSpec D) (price : D)
      (s : SimulatedExecutor D)
      → (closes : List (Trade D)) × ((Simulated.fill_order ids order spec price s).0.trades
          ≡ s.trades ++ closes)
  unfolding Simulated.fill_order Simulated.handle_open_order
  fill_order_trades ids order spec price s = elim (Option-cases (Simulated.closed_by order s)) [
    | inl e ↦ ([], rw (e, Simulated.fill_order) (sym (append-nil s.trades)))
    | inr (p, e) ↦ rw (e, Simulated.fill_order) (handle_close_order_trades ids order p _ _ _ s)
  ]

  pub place_order_trades :
      (ids : Ids) (order : OrderIntent D) (s : SimulatedExecutor D)
      → (closes : List (Trade D)) × ((Simulated.place_order ids order s).0.trades
          ≡ s.trades ++ closes)
  unfolding Simulated.place_order
  place_order_trades ids order s =
      elim (Bool-cases (Simulated.is_set order.client_order_id s.used_order_ids)) [
        | inl e ↦ ([], rw e (sym (append-nil s.trades)))
        | inr e ↦ elim (Option-cases (get_instrument_spec {D = D} order.symbol)) [
          | inl f ↦ ([], rw (e, f, Simulated.place_order) (sym (append-nil s.trades)))
          | inr (spec, f) ↦ elim (Option-cases (lookup order.symbol s.current_price)) [
            | inl g ↦ ([], rw (e, f, g, Simulated.place_order) (sym (append-nil s.trades)))
            | inr (price, g) ↦
                let (closes, filled) = fill_order_trades ids order spec price (noted order s) in
                (closes, rw (e, f, g, Simulated.place_order) filled)
          ]
        ]
      ]
