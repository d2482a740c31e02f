-- ===== src/Broker/Paper/Net.antt =====
-- The paper broker's positions as one signed number of contracts for each symbol.
pub mod Updates
use quant_bot.Prelude.{
  ℕ, ◌≡◌, refl, sym, String, Bool, true, false, Option, none, some, arith, Option-cases, Bool-cases,
  inl, inr, ◌⊎◌, ◌≢◌, if◌then◌else◌, str_eq,
}
use quant_bot.Prelude.Int.{
  ℤ, pos, negsuc, ◌+ℤ◌, ◌-ℤ◌, ◌<ℤ◌, ◌≤ℤ◌, neg_ℤ, pos_part, neg_part, IsInt, max_int, wrap,
  wrap-of_IsInt, int_laws, leb_ℤ, ltb_ℤ,
}
use quant_bot.Prelude.Dict.{lookup, insert, erase, lookup-insert, lookup-erase, str_eq_refl}
use quant_bot.Decimal.{Decimal, IsDecimal, ◌≺◌}
use quant_bot.Decimal.Order.{ne_zero_of_pos, of_int_positive}
use quant_bot.Types.{
  Result, ok, Side, flat, long, short, side_eq, get_instrument_spec, spec_or_zero, no_spec,
  instrument_mes, instrument_mgc,
}
use quant_bot.Broker.{Position}
use quant_bot.Broker.Paper.Account.{Broker}
use quant_bot.Broker.Paper.Positions.{
  update_position, increase, reduce, add_to_position, reduce_position, opened, marked, put_left,
  closed_contracts, realize_position_pnl, profit_at,
}

-- The contracts with the sign of their side.
abbrev pub signed : Side → ℤ → ℤ
signed flat n = pos 0
signed long n = n
signed short n = neg_ℤ n

pub short_pos_part : (n : ℤ) → pos_part (signed short n) ≡ neg_part n
short_pos_part n = ground arith

pub short_neg_part : (n : ℤ) → neg_part (signed short n) ≡ pos_part n
short_neg_part n = ground arith

pub ruleset signed_laws = (int_laws, short_pos_part, short_neg_part)

abbrev pub IsSided : Side → Type 0
IsSided side = (side ≡ long) ⊎ (side ≡ short)

pub side_eq-true : (a b : Side) → side_eq a b ≡ true → a ≡ b
side_eq-true a b h = ground arith

pub sides_of :
    (a b : Side)
    → IsSided a
    → IsSided b
    → side_eq a b ≡ false
    → ((a ≡ long) × (b ≡ short)) ⊎ ((a ≡ short) × (b ≡ long))
sides_of a b p q h = ground arith

module _ {ℓ} {D : Type ℓ} where
  abbrev pub net_of : Option (Position D) → ℤ
  net_of none = pos 0
  net_of (some p) = signed p.side p.contracts

  -- A position with a side and at least one contract, as many as a fill may add to.
  abbrev pub IsHeld : Position D → Type 0
  IsHeld p = (pos 0 <ℤ p.contracts) × IsSided p.side

  abbrev pub IsHeldOrNone : Option (Position D) → Type 0
  IsHeldOrNone none = Unit
  IsHeldOrNone (some p) = IsHeld p

module _ {ℓ} {D : Type ℓ} ⦃d : Decimal D⦄ where
  pub reduce_position-net :
      (p : Position D) (side : Side) (contracts : ℤ) (price : D)
      → pos 0 <ℤ p.contracts
      → ((p.side ≡ long) × (side ≡ short)) ⊎ ((p.side ≡ short) × (side ≡ long))
      → pos 0 <ℤ contracts
      → p.contracts +ℤ contracts ≤ℤ max_int
      → let p' = reduce_position p side contracts price in
        (net_of p' ≡ signed p.side p.contracts +ℤ signed side contracts) × IsHeldOrNone p'
  unfolding reduce_position
  reduce_position-net p side contracts price h (inl (e, f)) n m =
      let up = wrap-of_IsInt (contracts -ℤ p.contracts) (omega int_laws, omega int_laws) in
      let down = wrap-of_IsInt (p.contracts -ℤ contracts) (omega int_laws, omega int_laws) in
      elim (Bool-cases (leb_ℤ p.contracts contracts)) [
        | inl l ↦
            let le : p.contracts ≤ℤ contracts = ground (arith, l) in
            elim (Bool-cases (ltb_ℤ (pos 0) (contracts -ℤ p.contracts))) [
              | inl k ↦
                  let lt : pos 0 <ℤ contracts -ℤ p.contracts = ground (arith, k) in
                  rw (up, down, l, k, e, f) (omega signed_laws, (lt, inr refl))
              | inr k ↦
                  let ge : contracts -ℤ p.contracts ≤ℤ pos 0 = ground (arith, k) in
                  rw (up, down, l, k, e, f) (omega signed_laws, tt)
            ]
        | inr l ↦
            let lt : contracts <ℤ p.contracts = ground (arith, l) in
            rw (up, down, l, e, f) (omega signed_laws, (omega int_laws, inl refl))
      ]
  reduce_position-net p side contracts price h (inr (e, f)) n m =
      let up = wrap-of_IsInt (contracts -ℤ p.contracts) (omega int_laws, omega int_laws) in
      let down = wrap-of_IsInt (p.contracts -ℤ contracts) (omega int_laws, omega int_laws) in
      elim (Bool-cases (leb_ℤ p.contracts contracts)) [
        | inl l ↦
            let le : p.contracts ≤ℤ contracts = ground (arith, l) in
            elim (Bool-cases (ltb_ℤ (pos 0) (contracts -ℤ p.contracts))) [
              | inl k ↦
                  let lt : pos 0 <ℤ contracts -ℤ p.contracts = ground (arith, k) in
                  rw (up, down, l, k, e, f) (omega signed_laws, (lt, inl refl))
              | inr k ↦
                  let ge : contracts -ℤ p.contracts ≤ℤ pos 0 = ground (arith, k) in
                  rw (up, down, l, k, e, f) (omega signed_laws, tt)
            ]
        | inr l ↦
            let lt : contracts <ℤ p.contracts = ground (arith, l) in
            rw (up, down, l, e, f) (omega signed_laws, (omega int_laws, inr refl))
      ]

  -- The signed contracts of the symbol.
  abbrev pub net : String → Broker D → ℤ
  net symbol b = net_of (lookup symbol b.positions)

  open d use {zero_dec, of_int, add, sub, mul, div, neg}

  pub add_to_position-net :
      (p : Position D) (contracts : ℤ) (price : D) (laws : IsDecimal D)
      → IsHeld p
      → pos 0 <ℤ contracts
      → p.contracts +ℤ contracts ≤ℤ max_int
      → (p' : Position D) × (add_to_position p contracts price ≡ ok p')
        × (net_of (some p') ≡ signed p.side p.contracts +ℤ signed p.side contracts)
        × IsHeld p'
  unfolding add_to_position
  add_to_position-net p contracts price laws (h, sided) n m =
      let sum = p.contracts +ℤ contracts in
      let whole = wrap-of_IsInt sum (omega int_laws, m) in
      let positive : pos 0 <ℤ sum = omega int_laws in
      let divides = ne_zero_of_pos laws (of_int sum) (of_int_positive laws sum positive) in
      let cost = add (mul p.avg_cost (of_int p.contracts)) (mul price (of_int contracts)) in
      (
        record p { avg_cost = div cost (of_int sum); contracts = sum },
        rw (whole, divides) refl,
        elim sided [ inl e ↦ rw e refl | inr e ↦ rw e (omega signed_laws) ],
        (positive, sided),
      )

  -- After a fill the symbol's signed contracts have changed by those of the fill, what it holds is
  -- held, and other symbols keep their positions.
  pub record IsUpdated (symbol : String) (side : Side) (contracts : ℤ) (b b' : Broker D)
      : Type ℓ where
    pub sum : net symbol b' ≡ net symbol b +ℤ signed side contracts
    pub held : IsHeldOrNone (lookup symbol b'.positions)
    pub others :
        (k : String) → str_eq symbol k ≡ false → lookup k b'.positions ≡ lookup k b.positions
