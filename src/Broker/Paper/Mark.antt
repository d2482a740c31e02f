-- ===== src/Broker/Paper/Mark.antt =====
-- The paper broker's unrealised profit and what closing the position realises.
use quant_bot.Prelude.{ℕ, ◌≡◌, String, false, none, some, arith, inl, inr}
use quant_bot.Prelude.Int.{pos, ◌-ℤ◌, wrap, wrap-of_IsInt, int_laws}
use quant_bot.Prelude.Dict.{lookup, lookup-insert, lookup-erase, str_eq_refl}
use quant_bot.Decimal.{Decimal}
use quant_bot.Types.{ok, Result-cases, Side, side_eq, spec_or_zero}
use quant_bot.Broker.{Position}
use quant_bot.Broker.Paper.Account.{Broker}
use quant_bot.Broker.Paper.Positions.{
  update_position, update_position_pnl, reduce, realize_position_pnl, reduce_position,
  closed_contracts, profit_at, put_left,
}

module _ {ℓ} {D : Type ℓ} ⦃d : Decimal D⦄ where
  open d use {add}

  -- The symbol has left the book with the profit that the position showed.
  pub record IsRealized (symbol : String) (b b1 b2 : Broker D) : Type ℓ where
    pub marked : Position D
    pub shown : lookup symbol b1.positions ≡ some marked
    pub equity : b2.equity ≡ add b.equity marked.unrealized_pnl
    pub cash : b2.cash ≡ add b.cash marked.unrealized_pnl
    pub gone : lookup symbol b2.positions ≡ none

  closed_whole :
      (p : Position D) (side : Side) (price : D)
      → (closed_contracts p p.contracts ≡ p.contracts)
        × (reduce_position p side p.contracts price ≡ none)
  unfolding closed_contracts reduce_position
  closed_whole p side price =
      let same : p.contracts -ℤ p.contracts ≡ pos 0 = omega int_laws in
      let zero_int : wrap (pos 0) ≡ pos 0 = wrap-of_IsInt (pos 0) (omega arith, omega arith) in
      (ground arith, rw (same, zero_int) (ground arith))

  -- A fill on the other side for all contracts of a position realises, in the equity and in the cash,
  -- exactly the unrealised profit that a bar closing at the price of the fill would have shown, and
  -- the position is gone.
  pub update_position-IsRealized :
      (now now' : ℕ) (symbol : String) (side : Side) (price : D) (p : Position D)
      (b b1 b2 : Broker D)
      → lookup symbol b.positions ≡ some p
      → p.symbol ≡ symbol
      → side_eq p.side side ≡ false
      → update_position_pnl now symbol price b ≡ ok b1
      → update_position now' symbol side p.contracts price b ≡ ok b2
      → IsRealized symbol b b1 b2
  unfolding update_position_pnl update_position reduce realize_position_pnl put_left
  update_position-IsRealized now now' symbol side price p b b1 b2 e f s h k =
      let (whole, left) = closed_whole p side price in
      elim (Result-cases (profit_at (spec_or_zero {D = D} symbol) p price p.contracts)) [
        | inl (pnl, g) ↦
            let p1 = record p { market_price = price; unrealized_pnl = pnl; last_updated = now } in
            record {
              marked = p1;
              shown =
                  ground (
                    arith,
                    e,
                    h,
                    g,
                    lookup-insert symbol symbol p1 b.positions,
                    str_eq_refl symbol,
                  );
              equity = ground (arith, e, f, s, k, g, whole, left);
              cash = ground (arith, e, f, s, k, g, whole, left);
              gone = ground (
                arith,
                e,
                f,
                s,
                k,
                g,
                whole,
                left,
                lookup-erase symbol symbol b.positions,
                str_eq_refl symbol,
              );
            }
        | inr (inl (x, g)) ↦ absurd (ground (arith, e, h, g))
        | inr (inr g) ↦ absurd (ground (arith, e, h, g))
      ]
