-- ===== src/Indicator/StdDev.antt =====
-- pkg/indicator/stddev.go: the standard deviation, with a square root by Newton's method.
use quant_bot.Prelude.{
  Bool, true, false, ℕ, zero, suc, ◌-◌, ◌≡◌, refl, sym, ap, ◌∙◌, ◌||◌, List, [], ◌∷◌, ◌++◌, arith,
  if◌then◌else◌, length, ltb, Bool-cases, inl, inr,
}
use quant_bot.Prelude.Int.{ℤ, pos, ltb_ℤ}
use mathlib.Core.List.{foldl}
use quant_bot.Decimal.{Decimal, IsDecimal}
use quant_bot.Decimal.Order.{zero-add}
use quant_bot.Types.{Result, ok, ◌>>=◌, checked_div}
use quant_bot.Indicator.Window.{
  Window, at_least_one, slide, slides, slide-period, drop_oldest, last_values, length-drop,
  IsWindow, slides-IsWindow,
}
use quant_bot.Indicator.Sma.{new_sma, update, current, mean_of, mean-IsWindow, new_sma-IsWindow}
use quant_bot.Indicator.Sma as Sma

pub record StdDev {ℓ} (D : Type ℓ) : Type ℓ where
  pub period : ℤ
  pub values : List D
  pub sma : Window D

module _ {ℓ} {D : Type ℓ} ⦃d : Decimal D⦄ where
  open d use {
    zero_dec, of_int, literal, add, sub, mul, div, abs, round, less_than, is_zero, is_negative,
  }

  unfoldable pub new_std_dev : ℤ → StdDev D
  unfolding at_least_one
  new_std_dev period = record {
    period = at_least_one period;
    values = [];
    sma = new_sma (at_least_one period);
  }

  -- The rounds of Newton's method, at most so many, from a guess. A guess of zero panics.
  unfoldable pub newton : ℕ → D → D → Result D
  newton zero x guess = ok (round guess 8)
  newton (suc rounds) x guess = checked_div x guess >>= λ q.
      let new_guess = div (add guess q) (of_int (pos 2)) in
      let rest = newton rounds x new_guess in
      if less_than (abs (sub new_guess guess)) (literal 1 8) then ok (round new_guess 8) else rest

  unfoldable pub sqrt : D → Result D
  sqrt x =
      let half = div x (of_int (pos 2)) in
      if is_zero x || is_negative x
      then ok zero_dec
      else newton 100 x (if is_zero half then of_int (pos 1) else half)

  abbrev pub sum_squares : D → List D → D
  sum_squares m vs = foldl (λ sum v. add sum (mul (sub v m) (sub v m))) zero_dec vs

  unfoldable pub calculate_std_dev : D → List D → Result D
  calculate_std_dev m [] = ok zero_dec
  calculate_std_dev m (v ∷ vs) =
      sqrt (div (sum_squares m (v ∷ vs)) (of_int (pos (length (v ∷ vs)))))

  abbrev drop_first : List D → List D
  drop_first [] = []
  drop_first (v ∷ vs) = vs

  -- The values with the new one, without the oldest one when they are more than the period.
  abbrev keep : ℤ → List D → List D
  keep period vs = if ltb_ℤ period (pos (length vs)) then drop_first vs else vs

  unfoldable pub update_std_dev : D → StdDev D → Result (StdDev D × D)
  unfolding calculate_std_dev
  update_std_dev v s =
      let values = keep s.period (s.values ++ (v ∷ [])) in
      update v s.sma >>= λ (sma, m).
      (if ltb_ℤ (pos (length values)) s.period then ok zero_dec else calculate_std_dev m values)
      >>= λ deviation. ok (record s { values = values; sma = sma }, deviation)

  unfoldable pub current_std_dev : StdDev D → Result D
  current_std_dev s =
      if ltb_ℤ (pos (length s.values)) s.period
      then ok zero_dec
      else current s.sma >>= λ m. calculate_std_dev m s.values

  unfoldable pub is_ready_std_dev : StdDev D → Bool
  is_ready_std_dev s = if ltb_ℤ (pos (length s.values)) s.period then false else true

  unfoldable pub reset_std_dev : StdDev D → StdDev D
  reset_std_dev s = record s { values = []; sma = Sma.reset s.sma }

  unfoldable pub updates_std_dev : List D → StdDev D → Result (StdDev D)
  unfolding update_std_dev
  updates_std_dev [] s = ok s
  updates_std_dev (v ∷ vs) s = update_std_dev v s >>= λ r. updates_std_dev vs r.0

  -- The standard deviation and its average keep the same values and the same period.
  abbrev pub IsShared : StdDev D → Type ℓ
  IsShared s = (s.sma.period ≡ s.period) × (s.values ≡ s.sma.values)

  drop_first-eq :
      (period : ℤ) (vs : List D) (sum : D) → drop_first vs ≡ (drop_oldest period vs sum).values
  drop_first-eq period [] sum = refl
  drop_first-eq period (v ∷ vs) sum = refl

  keep-slide : (v : D) (w : Window D) → keep w.period (w.values ++ (v ∷ [])) ≡ (slide v w).values
  unfolding slide
  keep-slide v w = elim (Bool-cases (ltb_ℤ w.period (pos (length (w.values ++ (v ∷ [])))))) [
    | inl e ↦ rw e (drop_first-eq w.period (w.values ++ (v ∷ [])) (add w.sum v))
    | inr e ↦ rw e refl
  ]

  new_std_dev-start :
      (n : ℕ)
      → ((new_std_dev (pos (suc n))).period ≡ pos (suc n))
        × ((new_std_dev (pos (suc n))).sma ≡ new_sma (pos (suc n)))
        × ((new_sma {D = D} (pos (suc n))).period ≡ pos (suc n))
  unfolding new_std_dev at_least_one new_sma
  new_std_dev-start n = (ground arith, ground arith, ground arith)

-- Every square root comes out: no guess of Newton's method is zero.
unfoldable pub HasRoots {ℓ} : (D : Type ℓ) → ⦃d : Decimal D⦄ → Type ℓ
HasRoots D = (x : D) → (y : D) × (sqrt x ≡ ok y)

module _ {ℓ} {D : Type ℓ} ⦃d : Decimal D⦄ where
  open d use {zero_dec, of_int, add, sub, mul, div}

  pub calculate_std_dev-ok :
      (roots : HasRoots D) (m : D) (vs : List D) → (y : D) × (calculate_std_dev m vs ≡ ok y)
  unfolding calculate_std_dev HasRoots
  calculate_std_dev-ok roots m [] = (zero_dec, refl)
  calculate_std_dev-ok roots m (v ∷ vs) =
      roots (div (sum_squares m (v ∷ vs)) (of_int (pos (length (v ∷ vs)))))

  -- The sum of the squared distances from the mean.
  pub squares_around : D → List D → D
  squares_around m [] = zero_dec
  squares_around m (v ∷ vs) = add (mul (sub v m) (sub v m)) (squares_around m vs)

  module _ (laws : IsDecimal D) where
    sum_squares_from :
        (m sum : D) (vs : List D)
        → foldl (λ sum v. add sum (mul (sub v m) (sub v m))) sum vs ≡ add sum (squares_around m vs)
    unfolding squares_around
    sum_squares_from m sum [] = sym (laws.add-zero sum)
    sum_squares_from m sum (v ∷ vs) =
        let square = mul (sub v m) (sub v m) in
        sum_squares_from m (add sum square) vs ∙ laws.add_assoc sum square (squares_around m vs)

    calculate_std_dev-eq :
        (m : D) (n : ℕ) (vs : List D)
        → length vs ≡ suc n
        → calculate_std_dev m vs ≡ sqrt (div (squares_around m vs) (of_int (pos (suc n))))
    unfolding calculate_std_dev
    calculate_std_dev-eq m n [] e = absurd (omega (arith, e))
    calculate_std_dev-eq m n (v ∷ vs) e =
        let sum : sum_squares m (v ∷ vs) ≡ squares_around m (v ∷ vs) =
          sum_squares_from m zero_dec (v ∷ vs) ∙ zero-add laws (squares_around m (v ∷ vs)) in
        rw (sum, e) refl

    pub update_std_dev-ok :
        (roots : HasRoots D) (n : ℕ) (v : D) (s : StdDev D)
        → IsShared s
        → s.sma.period ≡ pos (suc n)
        → (deviation : D) × (s' : StdDev D) × (update_std_dev v s ≡ ok (s', deviation))
          × IsShared s'
          × (s'.sma ≡ slide v s.sma)
          × (s'.period ≡ s.period)
    unfolding update_std_dev
    update_std_dev-ok roots n v s (p, q) positive =
        let values = keep s.period (s.values ++ (v ∷ [])) in
        let (m, slid, _) = Sma.update-ok laws n v s.sma positive in
        let (y, rooted) = calculate_std_dev-ok roots m values in
        let s' : StdDev D = record s { values = values; sma = slide v s.sma } in
        let shared : IsShared s' = (slide-period v s.sma ∙ p, rw (← p, q) (keep-slide v s.sma)) in
        elim (Bool-cases (ltb_ℤ (pos (length values)) s.period)) [
          | inl e ↦ (zero_dec, s', rw (slid, e) refl, shared, refl, refl)
          | inr e ↦ (y, s', rw (slid, e, rooted) refl, shared, refl, refl)
        ]

    updates_std_dev-ok :
        (roots : HasRoots D) (n : ℕ) (vs : List D) (s : StdDev D)
        → IsShared s
        → s.sma.period ≡ pos (suc n)
        → (s' : StdDev D) × (updates_std_dev vs s ≡ ok s')
          × IsShared s'
          × (s'.sma ≡ slides vs s.sma)
          × (s'.period ≡ s.period)
    unfolding updates_std_dev slides
    updates_std_dev-ok roots n [] s shared positive = (s, refl, shared, refl, refl)
    updates_std_dev-ok roots n (v ∷ vs) s shared positive =
        let (y, s1, first, shared1, sma1, p1) = update_std_dev-ok roots n v s shared positive in
        let positive1 = ap (λ w. w.period) sma1 ∙ slide-period v s.sma ∙ positive in
        let (s2, rest, shared2, sma2, p2) = updates_std_dev-ok roots n vs s1 shared1 positive1 in
        (s2, rw first rest, shared2, sma2 ∙ ap (slides vs) sma1, p2 ∙ p1)

    -- Where every square root comes out, a standard deviation with a positive period takes any values
    -- without a panic. It is then what `sqrt` gives for the mean of the squared distances of the
    -- last of them, as many as its period, from their mean, and zero while there are fewer.
    pub updates_std_dev-eq :
        (roots : HasRoots D) (n : ℕ) (vs : List D)
        → (s : StdDev D) × (updates_std_dev vs (new_std_dev (pos (suc n))) ≡ ok s)
          × (current_std_dev s ≡ (
              if ltb (length vs) (suc n)
              then ok zero_dec
              else sqrt (
                  div
                    (squares_around (mean_of (suc n) vs) (last_values (suc n) vs))
                    (of_int (pos (suc n))))))
    unfolding current_std_dev new_std_dev new_sma current
    updates_std_dev-eq roots n vs =
        let start = new_std_dev (pos (suc n)) in
        let (whole, first, same_period) = new_std_dev-start n in
        let inner = ap (λ s. s.period) first ∙ same_period in
        let shared : IsShared start = (inner ∙ sym whole, refl) in
        let (done, ran, (p, q), average, kept) = updates_std_dev-ok roots n vs start shared inner in
        let opened = new_sma-IsWindow n in
        let is : IsWindow (suc n) vs (slides vs (new_sma (pos (suc n)))) =
          slides-IsWindow laws (suc n) [] vs (new_sma (pos (suc n))) (omega arith) opened in
        let same_sma = average ∙ ap (slides vs) first in
        let held : done.values ≡ last_values (suc n) vs =
          q ∙ ap (λ s. s.values) same_sma ∙ is.values_eq in
        let middle : current done.sma ≡ ok (mean_of (suc n) vs) =
          ap current same_sma ∙ mean-IsWindow laws n vs (slides vs (new_sma (pos (suc n)))) is in
        let size : length done.values ≡ length vs - (length vs - suc n) =
          ap length held ∙ length-drop (length vs - suc n) vs in
        let period : done.period ≡ pos (suc n) = kept ∙ whole in
        let same : ltb_ℤ (pos (length done.values)) done.period ≡ ltb (length vs) (suc n) =
          ground (arith, period, size) in
        (
          done,
          ran,
          elim (Bool-cases (ltb (length vs) (suc n))) [
            | inl e ↦ rw (same, e) refl
            | inr e ↦
                let full : length (last_values (suc n) vs) ≡ suc n =
                  ap length (sym held) ∙ size ∙ ground (arith, e) in
                let rooted =
                  calculate_std_dev-eq (mean_of (suc n) vs) n (last_values (suc n) vs) full in
                rw (same, middle, held)
                  (ap (λ r. if ltb (length vs) (suc n) then ok zero_dec else r) rooted)
          ],
        )
