-- ===== src/Broker/Paper/Cash.antt =====
-- The paper broker's books over a run: what the cash has paid and the equity has not.
use quant_bot.Prelude.{
  ℕ, ◌≡◌, refl, sym, ◌∙◌, String, List, [], ◌∷◌, arith, Option-cases, Bool-cases, inl, inr,
}
use quant_bot.Prelude.Int.{ℤ}
use quant_bot.Prelude.Dict.{lookup}
use quant_bot.Decimal.{Decimal, IsDecimal}
use quant_bot.Decimal.Order.{zero-add, add_cancel, sub-add, sub_self}
use quant_bot.Types.{ok, Result-cases, Side, side_eq, MarketEvent, spec_or_zero}
use quant_bot.Broker.{Position}
use quant_bot.Broker.Paper.Account.{
  Config, Broker, Running, new_broker, connect, disconnect, subscribe_market_data,
  unsubscribe_market_data, publish,
}
use quant_bot.Broker.Paper.Positions.{
  update_position, increase, reduce, realize_position_pnl, simulate_market_data,
  update_position_pnl, add_to_position, profit_at, closed_contracts,
}
use quant_bot.Broker.Paper.Orders.{
  place_order, submit, simulate_fill, cancel_order, set_order, fill_commission, filled_order,
  fill_price,
}
use quant_bot.Broker.Paper.Calls.{
  Call, connects, disconnects, subscribe, unsubscribe, bar, order, finish, leave, cancel, pick,
  call, calls,
}

module _ {ℓ} {D : Type ℓ} ⦃d : Decimal D⦄ where
  open d use {zero_dec, add, sub}

  -- By how much the equity is above the cash.
  abbrev pub gap : Broker D → D
  gap b = sub b.equity b.cash

  -- A change of cash and equity by one profit.
  record IsMoved (b b' : Broker D) : Type ℓ where
    pnl : D
    cash : b'.cash ≡ add b.cash pnl
    equity : b'.equity ≡ add b.equity pnl

  set_order_account :
      (id : String) (change : _) (b : Broker D)
      → ((set_order id change b).cash ≡ b.cash) × ((set_order id change b).equity ≡ b.equity)
  unfolding set_order
  set_order_account id change b = ground arith

  module _ (laws : IsDecimal D) where
    open laws use {add-zero, add_assoc, add_comm}

    gap-fill :
        (equity cash pnl commission : D)
        → sub (add equity pnl) (sub (add cash pnl) commission) ≡ add (sub equity cash) commission
    gap-fill e k p c =
        let x = sub (add k p) c in
        add_cancel laws (sub (add e p) x) (add (sub e k) c) x (
          rw
            (
              sub-add laws (add e p) x,
              add_assoc (sub e k) c x,
              add_comm c x,
              sub-add laws (add k p) c,
              ← add_assoc (sub e k) k p,
              sub-add laws e k,
            )
            refl)

    still : (b b' : Broker D) → b'.cash ≡ b.cash → b'.equity ≡ b.equity → IsMoved b b'
    still b b' k e = record {
      pnl = zero_dec;
      cash = k ∙ sym (add-zero b.cash);
      equity = e ∙ sym (add-zero b.equity);
    }

    increase-IsMoved :
        (now : ℕ) (p : Position D) (symbol : String) (contracts : ℤ) (price : D) (b b' : Broker D)
        → increase now p symbol contracts price b ≡ ok b'
        → IsMoved b b'
    unfolding increase
    increase-IsMoved now p symbol contracts price b b' h =
        elim (Result-cases (add_to_position p contracts price)) [
          | inl (p', e) ↦ still b b' (ground (arith, h, e)) (ground (arith, h, e))
          | inr (inl (x, e)) ↦ absurd (ground (arith, h, e))
          | inr (inr e) ↦ absurd (ground (arith, h, e))
        ]

    reduce-IsMoved :
        (now : ℕ) (p : Position D) (symbol : String) (side : Side) (contracts : ℤ) (price : D)
        (b b' : Broker D)
        → reduce now p symbol side contracts price b ≡ ok b'
        → IsMoved b b'
    unfolding reduce realize_position_pnl
    reduce-IsMoved now p symbol side contracts price b b' h =
        elim (Result-cases
          (profit_at (spec_or_zero {D = D} p.symbol) p price (closed_contracts p contracts))) [
            | inl (pnl, e) ↦ record {
              pnl = pnl;
              cash = ground (arith, h, e);
              equity = ground (arith, h, e);
            }
            | inr (inl (x, e)) ↦ absurd (ground (arith, h, e))
            | inr (inr e) ↦ absurd (ground (arith, h, e))
          ]

    update_position-IsMoved :
        (now : ℕ) (symbol : String) (side : Side) (contracts : ℤ) (price : D) (b b' : Broker D)
        → update_position now symbol side contracts price b ≡ ok b'
        → IsMoved b b'
    unfolding update_position
    update_position-IsMoved now symbol side contracts price b b' h =
        elim (Option-cases (lookup symbol b.positions)) [
          | inl e ↦ still b b' (ground (arith, h, e)) (ground (arith, h, e))
          | inr (p, e) ↦ elim (Bool-cases (side_eq p.side side)) [
            | inl s ↦ increase-IsMoved now p symbol contracts price b b' (ground (arith, h, e, s))
            | inr s ↦
                reduce-IsMoved now p symbol side contracts price b b' (ground (arith, h, e, s))
          ]
        ]

    simulate_fill-gap :
        (now : ℕ) (r : Running D) (b b' : Broker D)
        → simulate_fill now r b ≡ ok b'
        → gap b' ≡ add (gap b) (fill_commission b r.intent)
    unfolding simulate_fill
    simulate_fill-gap now r b b' h =
        let price = fill_price b r.intent in
        let commission = fill_commission b r.intent in
        let b0 = set_order r.order_id (filled_order now r.intent.contracts price commission) b in
        elim (Result-cases
          (update_position now r.intent.symbol r.intent.side r.intent.contracts price b0)) [
            | inl (b1, e) ↦
                let moved =
                  update_position-IsMoved now r.intent.symbol r.intent.side r.intent.contracts price
                    b0 b1 e in
                let (same_cash, same_equity) =
                  set_order_account r.order_id
                    (filled_order now r.intent.contracts price commission) b in
                let paid : b'.cash ≡ sub b1.cash commission = ground (arith, h, e) in
                let kept : b'.equity ≡ b1.equity = ground (arith, h, e) in
                rw (paid, kept, moved.cash, moved.equity, same_cash, same_equity)
                  (gap-fill b.equity b.cash moved.pnl commission)
            | inr (inl (x, e)) ↦ absurd (ground (arith, h, e))
            | inr (inr e) ↦ absurd (ground (arith, h, e))
          ]

    unmoved :
        (b b' : Broker D) (fee : D)
        → b'.cash ≡ b.cash
        → b'.equity ≡ b.equity
        → fee ≡ zero_dec
        → gap b' ≡ add (gap b) fee
    unmoved b b' fee k e z = rw (k, e, z) (sym (add-zero (gap b)))

    market_gap :
        (now : ℕ) (event : MarketEvent D) (b b' : Broker D) (fee : D)
        → call (bar now event) b ≡ ok (b', fee)
        → gap b' ≡ add (gap b) fee
    unfolding call simulate_market_data publish update_position_pnl
    market_gap now event b b' fee h =
        unmoved b b' fee (ground (arith, h)) (ground (arith, h)) (ground (arith, h))

    finish_gap :
        (now i : ℕ) (b b' : Broker D) (fee : D)
        → call (finish now i) b ≡ ok (b', fee)
        → gap b' ≡ add (gap b) fee
    unfolding call fill_commission
    finish_gap now i b b' fee h = elim (Option-cases (pick i b.running)) [
      | inl e ↦
          unmoved b b' fee (ground (arith, h, e)) (ground (arith, h, e)) (ground (arith, h, e))
      | inr ((r, rest), e) ↦
          let b0 = record b { running = rest } in
          elim (Result-cases (simulate_fill now r b0)) [
            | inl (b1, f) ↦
                let filled = simulate_fill-gap now r b0 b1 f in
                let same : b' ≡ b1 = ground (arith, h, e, f) in
                let paid : fee ≡ fill_commission b r.intent = ground (arith, h, e, f) in
                rw (same, paid) filled
            | inr (inl (x, f)) ↦ absurd (ground (arith, h, e, f))
            | inr (inr f) ↦ absurd (ground (arith, h, e, f))
          ]
    ]

    call-gap :
        (c : Call D) (b b' : Broker D) (fee : D)
        → call c b ≡ ok (b', fee)
        → gap b' ≡ add (gap b) fee
    unfolding call connect disconnect subscribe_market_data unsubscribe_market_data place_order
        submit cancel_order
    call-gap connects b b' fee h =
        unmoved b b' fee (ground (arith, h)) (ground (arith, h)) (ground (arith, h))
    call-gap disconnects b b' fee h =
        unmoved b b' fee (ground (arith, h)) (ground (arith, h)) (ground (arith, h))
    call-gap (subscribe s) b b' fee h =
        unmoved b b' fee (ground (arith, h)) (ground (arith, h)) (ground (arith, h))
    call-gap (unsubscribe s) b b' fee h =
        unmoved b b' fee (ground (arith, h)) (ground (arith, h)) (ground (arith, h))
    call-gap (bar now event) b b' fee h = market_gap now event b b' fee h
    call-gap (order now intent) b b' fee h =
        unmoved b b' fee (ground (arith, h)) (ground (arith, h)) (ground (arith, h))
    call-gap (finish now i) b b' fee h = finish_gap now i b b' fee h
    call-gap (leave i) b b' fee h =
        unmoved b b' fee (ground (arith, h)) (ground (arith, h)) (ground (arith, h))
    call-gap (cancel now id) b b' fee h =
        unmoved b b' fee (ground (arith, h)) (ground (arith, h)) (ground (arith, h))

    calls-gap :
        (cs : List (Call D)) (b b' : Broker D) (fees : D)
        → calls cs b ≡ ok (b', fees)
        → gap b' ≡ add (gap b) fees
    unfolding calls
    calls-gap [] b b' fees h =
        unmoved b b' fees (ground (arith, h)) (ground (arith, h)) (ground (arith, h))
    calls-gap (c ∷ cs) b b' fees h = elim (Result-cases (call c b)) [
      | inl ((b1, fee), e) ↦ elim (Result-cases (calls cs b1)) [
        | inl ((b2, rest), f) ↦
            let first = call-gap c b b1 fee e in
            let then_rest = calls-gap cs b1 b2 rest f in
            let (same, total) : (b' ≡ b2) × (fees ≡ add fee rest) = ground (arith, h, e, f) in
            rw (same, total, then_rest, first) (add_assoc (gap b) fee rest)
        | inr (inl (x, f)) ↦ absurd (ground (arith, h, e, f))
        | inr (inr f) ↦ absurd (ground (arith, h, e, f))
      ]
      | inr (inl (x, e)) ↦ absurd (ground (arith, h, e))
      | inr (inr e) ↦ absurd (ground (arith, h, e))
    ]

    -- After any calls of a new broker that go through, the cash is below the equity by exactly the
    -- commissions of all the fills among them: the profits reach both, the commissions only the cash.
    pub calls_books :
        (cfg : Config D) (cs : List (Call D)) (b : Broker D) (fees : D)
        → calls cs (new_broker cfg) ≡ ok (b, fees)
        → b.equity ≡ add b.cash fees
    unfolding new_broker
    calls_books cfg cs b fees h =
        let total = calls-gap cs (new_broker cfg) b fees h in
        sym (sub-add laws b.equity b.cash)
        ∙ rw (total, sub_self laws cfg.initial_equity, zero-add laws fees) (add_comm fees b.cash)
