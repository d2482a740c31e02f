-- ===== src/Execution/Simulated/RoundTrip.antt =====
-- What it costs in the simulated executor to buy and sell at one price.
use quant_bot.Prelude.{
  ℕ, ◌≡◌, refl, sym, ap, ◌∙◌, String, true, none, some, [], ◌∷◌, ◌++◌, arith, ◌≢◌,
}
use quant_bot.Prelude.Dict.{lookup}
use quant_bot.Decimal.{Decimal, IsDecimal}
use quant_bot.Decimal.Order.{add-mul, zero-mul, add_cancel, sub-add, zero-add}
use quant_bot.Types.{
  ok, Side, flat, long, short, opposite, side_eq, OrderIntent, OrderResult, Position, Trade,
  spec_or_zero,
}
use quant_bot.Execution.Simulated.{
  SimulatedExecutor, Ids, place_order, closed_by, opened_by, entry_fill, gross_profit,
  slippage_amount,
}
use quant_bot.Execution.Simulated.Orders.{
  IsFilled, place_order-Outcome, against-closed_by, entry_fill-moved_price, gross_profit-gross_of,
  gross_of,
}

side_eq_back : (side : Side) → side_eq side (opposite (opposite side)) ≡ true
unfolding opposite
side_eq_back flat = refl
side_eq_back long = refl
side_eq_back short = refl

module _ {ℓ} {D : Type ℓ} ⦃d : Decimal D⦄ where
  open d use {zero_dec, of_int, add, sub, mul}

  place_order_ok :
      (ids : Ids) (order : OrderIntent D) (s s' : SimulatedExecutor D) (r : OrderResult D)
      → place_order ids order s ≡ (s', ok r)
      → IsFilled order r s s'
  place_order_ok ids order s s' r h = rw h at (place_order-Outcome ids order s)

  closed_by-held :
      (order : OrderIntent D) (p : Position D) (s : SimulatedExecutor D)
      → lookup order.symbol s.positions ≡ some p
      → side_eq p.side (opposite order.side) ≡ true
      → closed_by order s ≡ some p
  unfolding closed_by
  closed_by-held order p s h e = ground (arith, h, e)

  quoted_price :
      (order : OrderIntent D) (r : OrderResult D) (s s' : SimulatedExecutor D) (m : D)
      → IsFilled order r s s'
      → lookup order.symbol s.current_price ≡ some m
      → r.avg_fill_price
        ≡ entry_fill order.side m (slippage_amount s.cfg (spec_or_zero {D = D} order.symbol))
  unfolding slippage_amount
  quoted_price order r s s' m done h =
      let known : spec_or_zero {D = D} order.symbol ≡ done.spec = ground (arith, done.known) in
      let same : m ≡ done.market_price = ground (arith, h, done.quoted) in
      rw (known, same)
        (done.price
          ∙ sym (
              entry_fill-moved_price order.side done.market_price
                (mul done.spec.tick_size (of_int s.cfg.slippage_ticks))))

  -- The gross profit of a closed position, where the order that opened it came in at a price.
  closing_gross :
      (uuid : String) (order : OrderIntent D) (p : Position D) (t : Trade D) (now : ℕ)
      (in_price out_price value : D)
      → p.side ≡ order.side
      → p.contracts ≡ order.contracts
      → p.entry_price ≡ in_price
      → t.gross_pl ≡ gross_of p.side p.entry_price out_price value p.contracts
      → t.gross_pl ≡ gross_profit (opened_by uuid order in_price now) out_price value
  unfolding opened_by
  closing_gross uuid order p t now in_price out_price value side contracts entry gross =
      gross
      ∙ rw (side, contracts, entry)
          (sym (gross_profit-gross_of (opened_by uuid order in_price now) out_price value))

  module _ (laws : IsDecimal D) where
    open laws use {add_assoc, add_comm}

    -- Twice the slippage is what buying above and selling below the same price loses.
    slippage_twice : (m slip : D) → add (sub (sub m slip) (add m slip)) (add slip slip) ≡ zero_dec
    slippage_twice m slip =
        let x = sub (sub m slip) (add m slip) in
        let back : add x (add m slip) ≡ sub m slip = sub-add laws (sub m slip) (add m slip) in
        add_cancel laws (add x (add slip slip)) zero_dec m (
          rw
            (
              add_assoc x (add slip slip) m,
              add_assoc slip slip m,
              add_comm slip (add slip m),
              ← add_assoc x (add slip m) slip,
              add_comm slip m,
              back,
              sub-add laws m slip,
            )
            (sym (zero-add laws m)))

    slippage_cost :
        (m slip point_value n : D)
        → add
            (mul (mul (sub (sub m slip) (add m slip)) point_value) n)
            (mul (mul (add slip slip) point_value) n)
          ≡ zero_dec
    slippage_cost m slip point_value n =
        let x = sub (sub m slip) (add m slip) in
        rw
          (
            ← add-mul laws (mul x point_value) (mul (add slip slip) point_value) n,
            ← add-mul laws x (add slip slip) point_value,
            slippage_twice m slip,
            zero-mul laws point_value,
            zero-mul laws n,
          )
          refl

    -- The cost of a trade that leaves at the price at which it came in, both moved against us.
    gross_profit_cost :
        (uuid : String) (order : OrderIntent D) (m slip point_value : D) (now : ℕ)
        → order.side ≢ flat
        → let p = opened_by uuid order (entry_fill order.side m slip) now in
          add
            (gross_profit p (entry_fill (opposite order.side) m slip) point_value)
            (mul (mul (add slip slip) point_value) (of_int order.contracts))
          ≡ zero_dec
    unfolding gross_profit opened_by entry_fill opposite
    gross_profit_cost uuid order m slip point_value now h =
        let cost = slippage_cost m slip point_value (of_int order.contracts) in
        ground (arith, h, cost)

    -- An order that opens a position, and an order on the other side for the same symbol at the same
    -- market price, leave the symbol without a position and one trade. Its gross result is minus
    -- twice the slippage on all contracts, and its net result is less by the commission of the second
    -- order alone.
    pub round_trip :
        (ids ids' : Ids) (order order' : OrderIntent D) (s s' s'' : SimulatedExecutor D)
        (r r' : OrderResult D)
        → closed_by order s ≡ none
        → order.side ≢ flat
        → order'.symbol ≡ order.symbol
        → order'.side ≡ opposite order.side
        → place_order ids order s ≡ (s', ok r)
        → place_order ids' order' s' ≡ (s'', ok r')
        → let spec = spec_or_zero {D = D} order.symbol in
          let slippage = slippage_amount s.cfg spec in
          (lookup order.symbol s''.positions ≡ none)
          × ((t : Trade D) × (s''.trades ≡ s.trades ++ (t ∷ []))
              × (t.contracts ≡ order.contracts)
              × (add t.gross_pl
                    (mul (mul (add slippage slippage) spec.point_value) (of_int order.contracts))
                  ≡ zero_dec)
              × (t.net_pl ≡ sub t.gross_pl r'.commission))
    unfolding opened_by
    round_trip ids ids' order order' s s' s'' r r' free side e f placed placed' =
        let first = place_order_ok ids order s s' r placed in
        let second = place_order_ok ids' order' s' s'' r' placed' in
        let m = first.market_price in
        let spec = spec_or_zero {D = D} order.symbol in
        let slippage = slippage_amount s.cfg spec in
        let opens = against-closed_by order s ∙ free in
        let ((p, held, is), kept) = rw opens at first.booked in
        let closed : closed_by order' s' ≡ some p =
          closed_by-held order' p s' (rw e held) (rw (f, is.asked.1) (side_eq_back order.side)) in
        let closes = against-closed_by order' s' ∙ closed in
        let (gone, (t, traded, done)) = rw closes at second.booked in
        let in_price : r.avg_fill_price ≡ entry_fill order.side m slippage =
          quoted_price order r s s' m first first.quoted in
        let out_price : r'.avg_fill_price ≡ entry_fill (opposite order.side) m slippage =
          rw (e, f, first.market.0) at
            (quoted_price order' r' s' s'' m second (rw (e, first.market.1) first.quoted)) in
        let gross =
          closing_gross p.id order p t s.current_time (entry_fill order.side m slippage)
            (entry_fill (opposite order.side) m slippage) spec.point_value is.asked.1 is.asked.2
            (is.entry.0 ∙ in_price) (rw (e, out_price) at done.gross) in
        let loss = mul (mul (add slippage slippage) spec.point_value) (of_int order.contracts) in
        let cost = gross_profit_cost p.id order m slippage spec.point_value s.current_time side in
        (
          rw e at gone,
          (
            t,
            traded ∙ ap (λ x. x ++ (t ∷ [])) kept,
            done.kept.2 ∙ is.asked.2,
            ap (λ x. add x loss) gross ∙ cost,
            done.net,
          ),
        )
