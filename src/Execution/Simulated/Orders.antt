-- ===== src/Execution/Simulated/Orders.antt =====
-- What an order does in the simulated executor, and what a round trip costs.
use quant_bot.Prelude.Int.{ℤ}
use quant_bot.Prelude.{
  ℕ, ◌≡◌, refl, String, true, false, Option, none, some, [], ◌∷◌, ◌++◌, arith, Bool-cases,
  Option-cases, inl, inr, str_eq,
}
use quant_bot.Prelude.Dict.{str_eq_refl, lookup, insert, lookup-erase, lookup-insert}
use quant_bot.Decimal.{Decimal}
use quant_bot.Types.{
  Result, ok, err, panic, filled, Side, long, short, flat, opposite, OrderIntent, OrderResult,
  Position, Trade, InstrumentSpec, spec_or_zero, get_instrument_spec,
}
use quant_bot.Execution.Simulated.{
  SimulatedExecutor, Ids, is_set, place_order, fill_order, handle_open_order, handle_close_order,
  closed_by, opened_by, entry_fill, gross_profit, slippage_amount, trade_of, fill_of,
}

module _ {ℓ} {D : Type ℓ} ⦃d : Decimal D⦄ where
  open d use {zero_dec, of_int, add, sub, mul}

  -- The gross profit of so many contracts that leave at `exit`.
  pub gross_of : Side → D → D → D → ℤ → D
  gross_of long entry exit value contracts = mul (mul (sub exit entry) value) (of_int contracts)
  gross_of short entry exit value contracts = mul (mul (sub entry exit) value) (of_int contracts)
  gross_of flat entry exit value contracts = mul (mul (sub entry exit) value) (of_int contracts)

  -- The trade of the position that the order closes.
  pub record IsTradeOf (order : OrderIntent D) (r : OrderResult D) (p : Position D) (t : Trade D)
      : Type ℓ where
    pub kept :
        (t.symbol ≡ p.symbol)
        × (t.side ≡ p.side)
        × (t.contracts ≡ p.contracts)
        × (t.entry_price ≡ p.entry_price)
    pub exit : t.exit_price ≡ r.avg_fill_price
    pub gross :
        t.gross_pl
        ≡ gross_of p.side p.entry_price r.avg_fill_price
            (spec_or_zero {D = D} order.symbol).point_value
            p.contracts
    pub net : t.net_pl ≡ sub t.gross_pl r.commission

  -- The position that the order opens at the time of the executor.
  pub record IsPositionOf (order : OrderIntent D) (r : OrderResult D) (now : ℕ) (p : Position D)
      : Type ℓ where
    pub asked : (p.symbol ≡ order.symbol) × (p.side ≡ order.side) × (p.contracts ≡ order.contracts)
    pub entry : (p.entry_price ≡ r.avg_fill_price) × (p.entry_time ≡ now)
    pub levels : (p.stop_loss ≡ order.stop_loss) × (p.take_profit ≡ order.take_profit)
    pub no_profit : (p.unrealized_pl ≡ zero_dec) × (p.realized_pl ≡ zero_dec)

  -- The position on the opposite side of the order, where its symbol holds one. Flat is opposite to
  -- flat.
  pub against : Side → Option (Position D) → Option (Position D)
  against side none = none
  against long (some p) = elim p.side [ long ↦ none | short ↦ some p | flat ↦ none ]
  against short (some p) = elim p.side [ long ↦ some p | short ↦ none | flat ↦ none ]
  against flat (some p) = elim p.side [ long ↦ none | short ↦ none | flat ↦ some p ]

  -- What the order leaves of the positions and the trades: it closes the opposite position whole,
  -- or else its own position replaces whatever its symbol held.
  abbrev pub IsBooked :
      Option (Position D)
      → OrderIntent D
      → OrderResult D
      → SimulatedExecutor D
      → SimulatedExecutor D
      → Type ℓ
  IsBooked closed order r s s' = elim closed [
    | some p ↦
        (lookup order.symbol s'.positions ≡ none)
        × ((t : Trade D) × (s'.trades ≡ s.trades ++ (t ∷ [])) × IsTradeOf order r p t)
    | none ↦
        ((p : Position D) × (lookup order.symbol s'.positions ≡ some p)
          × IsPositionOf order r s.current_time p)
        × (s'.trades ≡ s.trades)
  ]

  -- The market's price is moved against us: up for a purchase, down for a sale.
  pub moved_price : Side → D → D → D
  moved_price long market slippage = add market slippage
  moved_price short market slippage = sub market slippage
  moved_price flat market slippage = sub market slippage

  -- A filled order: what it needed, what it answers, and what it leaves.
  pub record IsFilled (order : OrderIntent D) (r : OrderResult D) (s s' : SimulatedExecutor D)
      : Type ℓ where
    pub market_price : D
    pub spec : InstrumentSpec D
    pub fresh : is_set order.client_order_id s.used_order_ids ≡ false
    pub known : get_instrument_spec {D = D} order.symbol ≡ some spec
    pub quoted : lookup order.symbol s.current_price ≡ some market_price
    pub answer :
        (r.client_order_id ≡ order.client_order_id)
        × (r.status ≡ filled)
        × (r.filled_qty ≡ order.contracts)
    pub market :
        (s'.cfg ≡ s.cfg) × (s'.current_price ≡ s.current_price) × (s'.current_time ≡ s.current_time)
    pub price :
        r.avg_fill_price
        ≡ moved_price order.side market_price (mul spec.tick_size (of_int s.cfg.slippage_ticks))
    pub commission : r.commission ≡ mul s.cfg.commission_per_side (of_int order.contracts)
    pub history : s'.order_history ≡ s.order_history ++ (r ∷ [])
    pub booked : IsBooked (against order.side (lookup order.symbol s.positions)) order r s s'
    pub others :
        (k : String) → str_eq order.symbol k ≡ false → lookup k s'.positions ≡ lookup k s.positions

  -- An executor that differs at most in the ids that it has used.
  abbrev pub IsUntouched : SimulatedExecutor D → SimulatedExecutor D → Type ℓ
  IsUntouched s s' = s' ≡ record s { used_order_ids = s'.used_order_ids }

  abbrev pub Outcome :
      OrderIntent D → SimulatedExecutor D → SimulatedExecutor D → Result (OrderResult D) → Type ℓ
  Outcome order s s' (ok r) = IsFilled order r s s'
  Outcome order s s' (err _) = IsUntouched s s'
  Outcome order s s' panic = ⊥ × IsUntouched s s'

  -- The executor once it has noted the order's id.
  abbrev pub noted : OrderIntent D → SimulatedExecutor D → SimulatedExecutor D
  noted order s = record s { used_order_ids = insert order.client_order_id true s.used_order_ids }

  fill_order_open :
      (ids : Ids) (order : OrderIntent D) (spec : InstrumentSpec D) (price : D)
      (s : SimulatedExecutor D)
      → closed_by order s ≡ none
      → let slippage = slippage_amount s.cfg spec in
        fill_order ids order spec price s
        ≡ handle_open_order ids order
            (entry_fill order.side price slippage)
            (mul s.cfg.commission_per_side (of_int order.contracts))
            slippage
            s
  unfolding fill_order
  fill_order_open ids order spec price s e = ground (arith, e)

  fill_order_close :
      (ids : Ids) (order : OrderIntent D) (spec : InstrumentSpec D) (price : D) (p : Position D)
      (s : SimulatedExecutor D)
      → closed_by order s ≡ some p
      → let slippage = slippage_amount s.cfg spec in
        fill_order ids order spec price s
        ≡ handle_close_order ids order p
            (entry_fill order.side price slippage)
            (mul s.cfg.commission_per_side (of_int order.contracts))
            slippage
            s
  unfolding fill_order
  fill_order_close ids order spec price p s e = ground (arith, e)

  pub against-closed_by :
      (order : OrderIntent D) (s : SimulatedExecutor D)
      → against order.side (lookup order.symbol s.positions) ≡ closed_by order s
  unfolding against closed_by opposite
  against-closed_by order s = ground arith

  pub entry_fill-moved_price :
      (side : Side) (market slippage : D)
      → entry_fill side market slippage ≡ moved_price side market slippage
  unfolding entry_fill moved_price
  entry_fill-moved_price side market slippage = ground arith

  pub gross_profit-gross_of :
      (p : Position D) (exit value : D)
      → gross_profit p exit value ≡ gross_of p.side p.entry_price exit value p.contracts
  unfolding gross_profit gross_of
  gross_profit-gross_of p exit value = ground arith

  -- What a placement has found out when it comes to the fill.
  record IsReady (order : OrderIntent D) (spec : InstrumentSpec D) (price : D)
      (s : SimulatedExecutor D) : Type ℓ where
    fresh : is_set order.client_order_id s.used_order_ids ≡ false
    known : get_instrument_spec {D = D} order.symbol ≡ some spec
    quoted : lookup order.symbol s.current_price ≡ some price

  handle_open_order-IsFilled :
      (ids : Ids) (order : OrderIntent D) (spec : InstrumentSpec D) (price : D)
      (s : SimulatedExecutor D)
      → IsReady order spec price s
      → closed_by order s ≡ none
      → let slippage = slippage_amount s.cfg spec in
        let (s', r) =
          handle_open_order ids order
            (entry_fill order.side price slippage)
            (mul s.cfg.commission_per_side (of_int order.contracts))
            slippage
            (noted order s) in
        Outcome order s s' r
  unfolding handle_open_order fill_of opened_by slippage_amount
  handle_open_order-IsFilled ids order spec price s ready e = record {
    market_price = price;
    spec = spec;
    fresh = ready.fresh;
    known = ready.known;
    quoted = ready.quoted;
    answer = (refl, refl, refl);
    market = (refl, refl, refl);
    price = entry_fill-moved_price order.side price (slippage_amount s.cfg spec);
    commission = refl;
    history = refl;
    booked =
        rw (against-closed_by order s, e)
          (
            (
              opened_by ids.object_uuid order
                  (entry_fill order.side price (slippage_amount s.cfg spec)) s.current_time,
              rw (
                lookup-insert order.symbol order.symbol
                    (opened_by ids.object_uuid order
                      (entry_fill order.side price (slippage_amount s.cfg spec)) s.current_time)
                    s.positions,
                str_eq_refl order.symbol,
              ),
              record {
                asked = (refl, refl, refl);
                entry = (refl, refl);
                levels = (refl, refl);
                no_profit = (refl, refl);
              },
            ),
            refl,
          );
    others = λ k other. rw (
      lookup-insert order.symbol k
          (opened_by ids.object_uuid order
            (entry_fill order.side price (slippage_amount s.cfg spec)) s.current_time)
          s.positions,
      other,
    );
  }

  handle_close_order-IsFilled :
      (ids : Ids) (order : OrderIntent D) (spec : InstrumentSpec D) (price : D) (p : Position D)
      (s : SimulatedExecutor D)
      → IsReady order spec price s
      → closed_by order s ≡ some p
      → let slippage = slippage_amount s.cfg spec in
        let (s', r) =
          handle_close_order ids order p
            (entry_fill order.side price slippage)
            (mul s.cfg.commission_per_side (of_int order.contracts))
            slippage
            (noted order s) in
        Outcome order s s' r
  unfolding handle_close_order fill_of trade_of slippage_amount
  handle_close_order-IsFilled ids order spec price p s ready e =
      let fill = entry_fill order.side price (slippage_amount s.cfg spec) in
      let commission = mul s.cfg.commission_per_side (of_int order.contracts) in
      record {
        market_price = price;
        spec = spec;
        fresh = ready.fresh;
        known = ready.known;
        quoted = ready.quoted;
        answer = (refl, refl, refl);
        market = (refl, refl, refl);
        price = entry_fill-moved_price order.side price (slippage_amount s.cfg spec);
        commission = refl;
        history = refl;
        booked =
            rw (against-closed_by order s, e)
              (
                rw (lookup-erase order.symbol order.symbol s.positions, str_eq_refl order.symbol),
                (
                  trade_of ids.object_uuid p fill s.current_time
                      (gross_profit p fill (spec_or_zero {D = D} order.symbol).point_value)
                      commission order.signal_id,
                  refl,
                  record {
                    kept = (refl, refl, refl, refl);
                    exit = refl;
                    gross =
                        gross_profit-gross_of p fill
                          (spec_or_zero {D = D} order.symbol).point_value;
                    net = refl;
                  },
                ),
              );
        others = λ k other. rw (lookup-erase order.symbol k s.positions, other);
      }

  fill_order-Outcome :
      (ids : Ids) (order : OrderIntent D) (spec : InstrumentSpec D) (price : D)
      (s : SimulatedExecutor D)
      → IsReady order spec price s
      → let (s', r) = fill_order ids order spec price (noted order s) in Outcome order s s' r
  unfolding closed_by
  fill_order-Outcome ids order spec price s ready = elim (Option-cases (closed_by order s)) [
    | inl e ↦
        rw (fill_order_open ids order spec price (noted order s) e)
          (handle_open_order-IsFilled ids order spec price s ready e)
    | inr (p, e) ↦
        rw (fill_order_close ids order spec price p (noted order s) e)
          (handle_close_order-IsFilled ids order spec price p s ready e)
  ]

  -- An order is filled whole, or it is refused and leaves the executor as it is but for the ids that
  -- it has used; it never panics. A filled order has a fresh id, a known symbol and a quoted price,
  -- to which the slippage is added for a long order and from which it is taken for another one; its
  -- result is the one that joins the history. Where the order's symbol holds a position on the
  -- opposite side, the whole position is closed into one trade with the profit of its side; else a
  -- position with the order's side, contracts, stop and target replaces what the symbol held. Other
  -- symbols keep their positions.
  pub place_order-Outcome :
      (ids : Ids) (order : OrderIntent D) (s : SimulatedExecutor D)
      → Outcome order s (place_order ids order s).0 (place_order ids order s).1
  unfolding place_order
  place_order-Outcome ids order s =
      elim (Bool-cases (is_set order.client_order_id s.used_order_ids)) [
        | inl used ↦ rw used refl
        | inr fresh ↦ elim (Option-cases (get_instrument_spec {D = D} order.symbol)) [
          | inl e ↦ rw (fresh, e) refl
          | inr (spec, e) ↦ elim (Option-cases (lookup order.symbol s.current_price)) [
            | inl f ↦ rw (fresh, e, f) refl
            | inr (price, f) ↦
                rw (fresh, e, f)
                  (fill_order-Outcome ids order spec price s
                    (record { fresh = fresh; known = e; quoted = f }))
          ]
        ]
      ]
