-- ===== src/Risk/Engine/Exposure.antt =====
-- The exposure check gives one answer, in whatever order Go iterates over the positions.
use mathlib.Core.List.{Permᴰ, foldl}
use quant_bot.Prelude.{◌≡◌, refl, ap, ◌∙◌, ◌⊎◌, inl, inr, String, str_eq, Option-cases, Bool-cases}
use quant_bot.Prelude.Int.{ℤ}
use quant_bot.Prelude.Dict.{Dict, IsMap}
use quant_bot.Prelude.Reorder.{foldl-Permᴰ, IsMap-Permᴰ}
use quant_bot.Decimal.{Decimal, IsDecimal}
use quant_bot.Types.{InstrumentSpec, Position, get_instrument_spec}
use quant_bot.Risk.Engine.{
  Engine, check_exposure_limits, symbol_margin, total_margin, add_position_margin,
  margin_per_contract,
}

module _ {ℓ} {D : Type ℓ} ⦃d : Decimal D⦄ (laws : IsDecimal D) where
  open d use {mul, add, of_int}
  open laws use {add_comm, add_assoc}

  add_right_comm : (a b c : D) → add (add a b) c ≡ add (add a c) b
  add_right_comm a b c = rw (add_assoc a b c, add_comm b c, ← add_assoc a c b)

  -- One round adds an amount that does not depend on the total so far, or nothing.
  margin_term :
      (symbol : String) (p : String × Position D)
      → ((total : D) → add_position_margin symbol total p ≡ total)
        ⊎ ((x : D) × ((total : D) → add_position_margin symbol total p ≡ add total x))
  unfolding add_position_margin
  margin_term symbol p = elim (Bool-cases (str_eq p.0 symbol)) [
    | inl same ↦ inl (λ total. rw same)
    | inr other ↦ elim (Option-cases (get_instrument_spec {D = D} p.0)) [
      | inl unknown ↦ inl (λ total. rw (other, unknown))
      | inr (spec, known) ↦
          inr (mul (margin_per_contract spec) (of_int p.1.contracts), λ total. rw (other, known))
    ]
  ]

  add_position_margin_comm :
      (symbol : String) (total : D) (p q : String × Position D)
      → add_position_margin symbol (add_position_margin symbol total p) q
        ≡ add_position_margin symbol (add_position_margin symbol total q) p
  add_position_margin_comm symbol total p q = go (margin_term symbol p) (margin_term symbol q)
    where
      f : D → String × Position D → D
      f = add_position_margin symbol

      go :
          ((t : D) → f t p ≡ t) ⊎ ((x : D) × ((t : D) → f t p ≡ add t x))
          → ((t : D) → f t q ≡ t) ⊎ ((x : D) × ((t : D) → f t q ≡ add t x))
          → f (f total p) q ≡ f (f total q) p
      go (inl h) (inl k) = rw (h total, k total, h total)
      go (inl h) (inr (y, k)) = rw (h total, k total, h (add total y))
      go (inr (x, h)) (inl k) = rw (h total, k total, k (add total x), h total)
      go (inr (x, h)) (inr (y, k)) =
          rw (h total, k total, k (add total x), h (add total y)) (add_right_comm total x y)

  module _ (symbol : String) (contracts : ℤ) (spec : InstrumentSpec D) {ps qs : Dict (Position D)}
      (h : IsMap ps) (p : Permᴰ ps qs) where
    symbol_margin-Permᴰ :
        symbol_margin symbol contracts spec ps ≡ symbol_margin symbol contracts spec qs
    unfolding symbol_margin
    symbol_margin-Permᴰ = rw ((IsMap-Permᴰ p h).1 symbol, symbol_margin) refl

    total_margin-Permᴰ :
        total_margin symbol contracts spec ps ≡ total_margin symbol contracts spec qs
    unfolding total_margin
    total_margin-Permᴰ =
        foldl-Permᴰ (add_position_margin symbol) (add_position_margin_comm symbol) p
          (symbol_margin symbol contracts spec ps)
        ∙ ap (λ t. foldl (add_position_margin symbol) t qs) symbol_margin-Permᴰ

  -- The check of the exposure limits comes to the same result for every order of the positions.
  pub check_exposure_limits-Permᴰ :
      (e : Engine D) (ps : Dict (Position D)) (symbol : String) (contracts : ℤ)
      (spec : InstrumentSpec D)
      → IsMap e.positions
      → Permᴰ e.positions ps
      → check_exposure_limits (record e { positions = ps }) symbol contracts spec
        ≡ check_exposure_limits e symbol contracts spec
  unfolding check_exposure_limits
  check_exposure_limits-Permᴰ e ps symbol contracts spec h p =
      rw (
        symbol_margin-Permᴰ symbol contracts spec h p,
        total_margin-Permᴰ symbol contracts spec h p,
      )
