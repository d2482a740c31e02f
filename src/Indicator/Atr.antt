-- ===== src/Indicator/Atr.antt =====
-- pkg/indicator/atr.go: the average true range. The field `window` holds the period, the true ranges
-- and their sum.
use quant_bot.Prelude.{
  ℕ, zero, suc, ◌≡◌, refl, ◌∙◌, Bool, true, false, List, [], ◌∷◌, if◌then◌else◌, length, Option,
  none, some,
}
use quant_bot.Prelude.Int.{ℤ, pos, ltb_ℤ}
use quant_bot.Decimal.{Decimal, IsDecimal}
use quant_bot.Types.{Result, ok, ◌>>=◌}
use quant_bot.Indicator.Window.{Window, at_least_one, slide, mean, mean-ok, slide-period}

pub record Atr {ℓ} (D : Type ℓ) : Type ℓ where
  pub prev_close : D
  pub window : Window D
  pub count : ℕ

-- The high, the low and the close of a bar.
abbrev pub Bar {ℓ} : Type ℓ → Type ℓ
Bar D = D × D × D

abbrev is_zero_nat : ℕ → Bool
is_zero_nat zero = true
is_zero_nat (suc _) = false

module _ {ℓ} {D : Type ℓ} ⦃d : Decimal D⦄ where
  open d use {zero_dec, of_int, add, sub, div, abs, greater_than, less_than}

  unfoldable pub new_atr : ℤ → Atr D
  unfolding at_least_one
  new_atr period = record {
    prev_close = zero_dec;
    window = record { period = at_least_one period; values = []; sum = zero_dec };
    count = 0;
  }

  unfoldable pub max_decimal : D → D → D
  max_decimal a b = if greater_than a b then a else b

  unfoldable pub true_range : D → D → Atr D → D
  unfolding max_decimal
  true_range high low a =
      if is_zero_nat a.count
      then sub high low
      else max_decimal (sub high low)
          (max_decimal (abs (sub high a.prev_close)) (abs (sub low a.prev_close)))

  unfoldable pub update : Bar D → Atr D → Result (Atr D × D)
  unfolding true_range slide mean
  update (high, low, close) a =
      let window = slide (true_range high low a) a.window in
      mean window >>= λ m.
      ok (record { prev_close = close; window = window; count = suc a.count }, m)

  unfoldable pub current : Atr D → Result D
  unfolding mean
  current a = mean a.window

  unfoldable pub reset : Atr D → Atr D
  reset a = record {
    prev_close = zero_dec;
    window = record { period = a.window.period; values = []; sum = zero_dec };
    count = 0;
  }

  unfoldable pub updates : List (Bar D) → Atr D → Result (Atr D)
  unfolding update
  updates [] a = ok a
  updates (bar ∷ bars) a = update bar a >>= λ r. updates bars r.0

  -- The range of a bar and the previous close, where there is one.
  abbrev pub range_after : Option D → D → D → D
  range_after none high low = sub high low
  range_after (some close) high low =
      max_decimal (sub high low) (max_decimal (abs (sub high close)) (abs (sub low close)))

  -- The true ranges of successive bars, the first of them after the previous close.
  unfoldable pub true_ranges : Option D → List (Bar D) → List D
  true_ranges prev [] = []
  true_ranges prev ((high, low, close) ∷ bars) =
      range_after prev high low ∷ true_ranges (some close) bars

  abbrev prev_of : Atr D → Option D
  prev_of a = if is_zero_nat a.count then none else some a.prev_close

  -- The state behind a bar.
  pub after_bar : Bar D → Atr D → Atr D
  after_bar (high, low, close) a = record {
    prev_close = close;
    window = slide (true_range high low a) a.window;
    count = suc a.count;
  }

  module _ (laws : IsDecimal D) where
    pub update-ok :
        (n : ℕ) (bar : Bar D) (a : Atr D)
        → a.window.period ≡ pos (suc n)
        → (m : D) × (a' : Atr D) × (update bar a ≡ ok (a', m))
          × (a'.window.period ≡ pos (suc n))
          × (a' ≡ after_bar bar a)
    unfolding update after_bar
    update-ok n (high, low, close) a p =
        let window = slide (true_range high low a) a.window in
        let q = slide-period (true_range high low a) a.window ∙ p in
        let m : D =
          if ltb_ℤ (pos (length window.values)) window.period
          then zero_dec
          else div window.sum (of_int window.period) in
        (m, after_bar (high, low, close) a, rw (mean-ok laws n window q) refl, q, refl)
