-- ===== src/Indicator/Sma.antt =====
-- pkg/indicator/sma.go: the simple moving average.
use quant_bot.Prelude.{
  ℕ, suc, ◌-◌, ◌≡◌, refl, sym, ap, ◌∙◌, List, [], ◌∷◌, arith, if◌then◌else◌, length, ltb,
}
use quant_bot.Prelude.Int.{ℤ, pos, ltb_ℤ}
use quant_bot.Decimal.{Decimal, IsDecimal}
use quant_bot.Types.{Result, ok, ◌>>=◌}
use quant_bot.Indicator.Window.{
  Window, at_least_one, slide, slides, mean, total, last_values, IsWindow, length-drop, drop-nil,
  slides-IsWindow, mean-ok, slide-period,
}

module _ {ℓ} {D : Type ℓ} ⦃d : Decimal D⦄ where
  open d use {zero_dec, of_int, div}

  unfoldable pub new_sma : ℤ → Window D
  unfolding at_least_one
  new_sma period = record { period = at_least_one period; values = []; sum = zero_dec }

  unfoldable pub update : D → Window D → Result (Window D × D)
  unfolding slide mean
  update v s = let s' = slide v s in mean s' >>= λ m. ok (s', m)

  unfoldable pub current : Window D → Result D
  unfolding mean
  current s = mean s

  unfoldable pub reset : Window D → Window D
  reset s = record s { values = []; sum = zero_dec }

  unfoldable pub count : Window D → ℤ
  count s = pos (length s.values)

  unfoldable pub updates : List D → Window D → Result (Window D)
  unfolding update
  updates [] s = ok s
  updates (v ∷ vs) s = update v s >>= λ r. updates vs r.0

  -- The mean of the last values of a history, or zero while there are fewer than the period.
  abbrev pub mean_of : ℕ → List D → D
  mean_of n history =
      if ltb (length history) n
      then zero_dec
      else div (total (last_values n history)) (of_int (pos n))

  pub new_sma-IsWindow : (n : ℕ) → IsWindow (suc n) [] (new_sma (pos (suc n)))
  unfolding new_sma at_least_one
  new_sma-IsWindow n = record {
    same_period = ground arith;
    values_eq = sym (drop-nil (0 - suc n));
    sum_eq = refl;
  }

  module _ (laws : IsDecimal D) where
    pub mean-IsWindow :
        (n : ℕ) (history : List D) (s : Window D)
        → IsWindow (suc n) history s
        → mean s ≡ ok (mean_of (suc n) history)
    mean-IsWindow n history s is =
        let size : length s.values ≡ length history - (length history - suc n) =
          ap length is.values_eq ∙ length-drop (length history - suc n) history in
        let same : ltb_ℤ (pos (length s.values)) s.period ≡ ltb (length history) (suc n) =
          ground (arith, is.same_period, size) in
        mean-ok laws n s is.same_period
        ∙ ap ok (rw (same, is.sum_eq, is.values_eq, is.same_period) refl)

    -- An update answers, and the window slides.
    pub update-ok :
        (n : ℕ) (v : D) (s : Window D)
        → s.period ≡ pos (suc n)
        → (m : D) × (update v s ≡ ok (slide v s, m)) × (mean (slide v s) ≡ ok m)
    unfolding update
    update-ok n v s p =
        let is = mean-ok laws n (slide v s) (slide-period v s ∙ p) in (_, rw is refl, is)

    pub updates-slides :
        (n : ℕ) (vs : List D) (s : Window D)
        → s.period ≡ pos (suc n)
        → updates vs s ≡ ok (slides vs s)
    unfolding updates slides
    updates-slides n [] s p = refl
    updates-slides n (v ∷ vs) s p =
        let (m, first, _) = update-ok n v s p in
        rw first (updates-slides n vs (slide v s) (slide-period v s ∙ p))

    -- A moving average with a positive period takes any values without a panic. It then holds the
    -- last of them, at most its period, and its value is their mean as soon as there are as many as
    -- its period, and zero before.
    pub updates-mean :
        (n : ℕ) (vs : List D)
        → (s : Window D) × (updates vs (new_sma (pos (suc n))) ≡ ok s)
          × (s.values ≡ last_values (suc n) vs)
          × (current s ≡ ok (mean_of (suc n) vs))
    unfolding current
    updates-mean n vs =
        let start = new_sma (pos (suc n)) in
        let opened = new_sma-IsWindow n in
        let is : IsWindow (suc n) vs (slides vs start) =
          slides-IsWindow laws (suc n) [] vs start (omega arith) opened in
        (
          slides vs start,
          updates-slides n vs start opened.same_period,
          is.values_eq,
          mean-IsWindow n vs (slides vs start) is,
        )
