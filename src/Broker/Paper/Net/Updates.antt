-- ===== src/Broker/Paper/Net/Updates.antt =====
-- A fill of the paper broker as an addition of signed contracts.
use quant_bot.Prelude.{
  ℕ, ◌≡◌, refl, String, true, false, Option, none, some, arith, Option-cases, Bool-cases, inl, inr,
  ◌⊎◌, ◌≢◌, if◌then◌else◌,
}
use quant_bot.Prelude.Int.{ℤ, pos, ◌+ℤ◌, ◌<ℤ◌, ◌≤ℤ◌, max_int, int_laws}
use quant_bot.Prelude.Dict.{lookup, lookup-insert, lookup-erase, str_eq_refl}
use quant_bot.Decimal.{Decimal, IsDecimal, ◌≺◌}
use quant_bot.Decimal.Order.{ne_zero_of_pos}
use quant_bot.Types.{
  ok, Side, long, short, side_eq, get_instrument_spec, spec_or_zero, instrument_mes, instrument_mgc,
}
use quant_bot.Broker.{Position}
use quant_bot.Broker.Paper.Account.{Broker}
use quant_bot.Broker.Paper.Positions.{
  update_position, increase, reduce, reduce_position, opened, marked, put_left, closed_contracts,
  realize_position_pnl, profit_at,
}
use quant_bot.Broker.Paper.Net.{
  signed, IsSided, net_of, IsHeld, IsHeldOrNone, net, IsUpdated, side_eq-true, sides_of,
  reduce_position-net, add_to_position-net,
}

module _ {ℓ} {D : Type ℓ} ⦃d : Decimal D⦄ where
  open d use {zero_dec, of_int, add, sub, mul, div, neg}

  put_left-IsUpdated :
      (now : ℕ) (symbol : String) (side : Side) (contracts : ℤ) (price : D)
      (o : Option (Position D)) (b b' : Broker D)
      → b'.positions ≡ put_left now symbol price o b.positions
      → net_of o ≡ net symbol b +ℤ signed side contracts
      → IsHeldOrNone o
      → IsUpdated symbol side contracts b b'
  unfolding put_left
  put_left-IsUpdated now symbol side contracts price none b b' e sum held =
      let found = λ (k : String). lookup-erase symbol k b.positions in
      record {
        sum = rw (e, found symbol, str_eq_refl symbol) sum;
        held = rw (e, found symbol, str_eq_refl symbol) held;
        others = λ k o. rw (e, found k, o);
      }
  put_left-IsUpdated now symbol side contracts price (some p) b b' e sum held =
      let found = λ (k : String). lookup-insert symbol k (marked now price p) b.positions in
      record {
        sum = rw (e, found symbol, str_eq_refl symbol) sum;
        held = rw (e, found symbol, str_eq_refl symbol) held;
        others = λ k o. rw (e, found k, o);
      }

  update_position-new :
      (now : ℕ) (symbol : String) (side : Side) (contracts : ℤ) (price : D) (b : Broker D)
      → lookup symbol b.positions ≡ none
      → update_position now symbol side contracts price b
        ≡ ok (record b {
          positions =
              put_left now symbol price (some (opened now symbol side contracts price)) b.positions;
        })
  unfolding update_position put_left opened
  update_position-new now symbol side contracts price b e = ground (arith, e)

  update_position-same :
      (now : ℕ) (symbol : String) (side : Side) (contracts : ℤ) (price : D) (p : Position D)
      (b : Broker D)
      → lookup symbol b.positions ≡ some p
      → side_eq p.side side ≡ true
      → update_position now symbol side contracts price b ≡ increase now p symbol contracts price b
  unfolding update_position
  update_position-same now symbol side contracts price p b e s = ground (arith, e, s)

  update_position-other :
      (now : ℕ) (symbol : String) (side : Side) (contracts : ℤ) (price : D) (p : Position D)
      (b : Broker D)
      → lookup symbol b.positions ≡ some p
      → side_eq p.side side ≡ false
      → update_position now symbol side contracts price b
        ≡ reduce now p symbol side contracts price b
  unfolding update_position
  update_position-other now symbol side contracts price p b e s = ground (arith, e, s)

  opened-net :
      (now : ℕ) (symbol : String) (side : Side) (contracts : ℤ) (price : D) (b : Broker D)
      → lookup symbol b.positions ≡ none
      → net_of (some (opened now symbol side contracts price))
        ≡ net symbol b +ℤ signed side contracts
  unfolding opened
  opened-net now symbol side contracts price b e = rw e (omega int_laws)

  module _ (laws : IsDecimal D) where
    tick_size_pos :
        (symbol : String)
        → get_instrument_spec {D = D} symbol ≢ none
        → zero_dec ≺ (spec_or_zero {D = D} symbol).tick_size
    unfolding get_instrument_spec instrument_mes instrument_mgc
    tick_size_pos symbol known =
        ground
          (arith, known, laws.literal_pos 25 2 (omega arith), laws.literal_pos 10 2 (omega arith))

    profit_at-ok :
        (p : Position D) (price : D) (contracts : ℤ)
        → get_instrument_spec {D = D} p.symbol ≢ none
        → (pnl : D) × (profit_at (spec_or_zero {D = D} p.symbol) p price contracts ≡ ok pnl)
    unfolding profit_at
    profit_at-ok p price contracts known =
        let spec = spec_or_zero {D = D} p.symbol in
        let divides = ne_zero_of_pos laws spec.tick_size (tick_size_pos p.symbol known) in
        let pnl =
          mul (mul (div (sub price p.avg_cost) spec.tick_size) spec.tick_value)
            (of_int contracts) in
        (if side_eq p.side short then neg pnl else pnl, rw divides refl)

    increase-IsUpdated :
        (now : ℕ) (symbol : String) (side : Side) (contracts : ℤ) (price : D) (p : Position D)
        (b : Broker D)
        → lookup symbol b.positions ≡ some p
        → IsHeld p
        → p.side ≡ side
        → pos 0 <ℤ contracts
        → p.contracts +ℤ contracts ≤ℤ max_int
        → (b' : Broker D) × (increase now p symbol contracts price b ≡ ok b')
          × IsUpdated symbol side contracts b b'
    unfolding increase
    increase-IsUpdated now symbol side contracts price p b e h s n m =
        let (p', done, sum, held) = add_to_position-net p contracts price laws h n m in
        let b' = record b { positions = put_left now symbol price (some p') b.positions } in
        (
          b',
          rw done refl,
          put_left-IsUpdated now symbol side contracts price (some p') b b' refl (rw (e, ← s) sum)
              held,
        )

    reduce-IsUpdated :
        (now : ℕ) (symbol : String) (side : Side) (contracts : ℤ) (price : D) (p : Position D)
        (b : Broker D)
        → lookup symbol b.positions ≡ some p
        → get_instrument_spec {D = D} p.symbol ≢ none
        → pos 0 <ℤ p.contracts
        → ((p.side ≡ long) × (side ≡ short)) ⊎ ((p.side ≡ short) × (side ≡ long))
        → pos 0 <ℤ contracts
        → p.contracts +ℤ contracts ≤ℤ max_int
        → (b' : Broker D) × (reduce now p symbol side contracts price b ≡ ok b')
          × IsUpdated symbol side contracts b b'
    unfolding reduce realize_position_pnl
    reduce-IsUpdated now symbol side contracts price p b e known h sides n m =
        let (pnl, done) = profit_at-ok p price (closed_contracts p contracts) known in
        let (sum, held) = reduce_position-net p side contracts price h sides n m in
        let o = reduce_position p side contracts price in
        let b' : Broker D = record b {
          cash = add b.cash pnl;
          equity = add b.equity pnl;
          positions = put_left now symbol price o b.positions;
        } in
        (
          b',
          rw done refl,
          put_left-IsUpdated now symbol side contracts price o b b' refl (rw e sum) held,
        )

    -- A fill of a known symbol, of at least one contract on one side, goes through where the positions
    -- are held and the contracts do not overflow: the signed contracts of its symbol change by those
    -- of the fill, the symbol's position has at least one contract or is gone, and other symbols keep
    -- theirs.
    pub update_position-IsUpdated :
        (now : ℕ) (symbol : String) (side : Side) (contracts : ℤ) (price : D) (b : Broker D)
        → IsHeldOrNone (lookup symbol b.positions)
        → ((p : Position D)
            → lookup symbol b.positions ≡ some p
            → (p.symbol ≡ symbol) × (p.contracts +ℤ contracts ≤ℤ max_int))
        → get_instrument_spec {D = D} symbol ≢ none
        → IsSided side
        → pos 0 <ℤ contracts
        → (b' : Broker D) × (update_position now symbol side contracts price b ≡ ok b')
          × IsUpdated symbol side contracts b b'
    unfolding opened
    update_position-IsUpdated now symbol side contracts price b held fits known sided n =
        elim (Option-cases (lookup symbol b.positions)) [
          | inl e ↦
              let p = opened now symbol side contracts price in
              let b' = record b { positions = put_left now symbol price (some p) b.positions } in
              (
                b',
                update_position-new now symbol side contracts price b e,
                put_left-IsUpdated now symbol side contracts price (some p) b b' refl
                    (opened-net now symbol side contracts price b e) (n, sided),
              )
          | inr (p, e) ↦
              let (h, sided') : IsHeld p = rw e at held in
              let (same, m) = fits p e in
              elim (Bool-cases (side_eq p.side side)) [
                | inl s ↦ rw (update_position-same now symbol side contracts price p b e s) (
                    increase-IsUpdated now symbol side contracts price p b e (h, sided')
                      (side_eq-true p.side side s) n m)
                | inr s ↦ rw (update_position-other now symbol side contracts price p b e s) (
                    reduce-IsUpdated now symbol side contracts price p b e (rw same known) h
                      (sides_of p.side side sided' sided s) n m)
              ]
        ]
