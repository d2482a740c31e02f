-- ===== src/Indicator/Window.antt =====
-- pkg/indicator: the rolling window with its running sum, which the moving average and the average
-- true range keep.
use quant_bot.Prelude.{
  ℕ, zero, suc, ◌+◌, ◌-◌, ◌≤◌, ◌<◌, ◌≡◌, refl, sym, ap, ◌∙◌, Bool, true, false, List, [], ◌∷◌, ◌++◌,
  arith, if◌then◌else◌, length, drop, length-append, append-nil, append_assoc, Bool-cases, inl, inr,
}
use quant_bot.Prelude.Int.{ℤ, pos, ltb_ℤ}
use quant_bot.Decimal.{Decimal, IsDecimal}
use quant_bot.Decimal.Order.{add-sub, ne_zero_of_pos, of_int_pos}
use quant_bot.Types.{Result, ok, checked_div}

-- A period below 1 counts as 1.
unfoldable pub at_least_one : ℤ → ℤ
at_least_one n = if ltb_ℤ n (pos 1) then pos 1 else n

pub record Window {ℓ} (D : Type ℓ) : Type ℓ where
  pub period : ℤ
  pub values : List D
  pub sum : D

module _ {ℓ} {D : Type ℓ} ⦃d : Decimal D⦄ where
  open d use {zero_dec, of_int, add, sub, div, is_zero}

  -- The window without its oldest value.
  abbrev pub drop_oldest : ℤ → List D → D → Window D
  drop_oldest period [] sum = record { period = period; values = []; sum = sum }
  drop_oldest period (v ∷ vs) sum = record { period = period; values = vs; sum = sub sum v }

  -- The new value joins the window, and the oldest one leaves it when it holds more than its period.
  unfoldable pub slide : D → Window D → Window D
  slide v w =
      let values = w.values ++ (v ∷ []) in
      let sum = add w.sum v in
      if ltb_ℤ w.period (pos (length values))
      then drop_oldest w.period values sum
      else record { period = w.period; values = values; sum = sum }

  unfoldable pub is_ready : Window D → Bool
  is_ready w = if ltb_ℤ (pos (length w.values)) w.period then false else true

  -- The mean, or zero as long as the window is not full. A division by a period of zero panics.
  unfoldable pub mean : Window D → Result D
  mean w =
      if ltb_ℤ (pos (length w.values)) w.period
      then ok zero_dec
      else checked_div w.sum (of_int w.period)

  unfoldable pub slides : List D → Window D → Window D
  slides [] w = w
  slides (v ∷ vs) w = slides vs (slide v w)

  pub slide-period : (v : D) (w : Window D) → (slide v w).period ≡ w.period
  unfolding slide
  slide-period v w = ground arith

  abbrev pub total : List D → D
  total [] = zero_dec
  total (v ∷ vs) = add v (total vs)

  abbrev pub last_values : ℕ → List D → List D
  last_values n vs = drop (length vs - n) vs

  pub length-drop : (k : ℕ) (vs : List D) → length (drop k vs) ≡ length vs - k
  length-drop zero vs = omega arith
  length-drop (suc k) [] = omega arith
  length-drop (suc k) (v ∷ vs) = omega (arith, length-drop k vs)

  pub drop-nil : (k : ℕ) → drop {A = D} k [] ≡ []
  drop-nil zero = refl
  drop-nil (suc k) = refl

  drop-append : (k : ℕ) (vs ws : List D) → k ≤ length vs → drop k (vs ++ ws) ≡ drop k vs ++ ws
  drop-append zero vs ws h = refl
  drop-append (suc k) [] ws h = absurd (omega arith)
  drop-append (suc k) (v ∷ vs) ws h = drop-append k vs ws (omega arith)

  -- The window over a history: its last values, at most the period of them, and their sum.
  pub record IsWindow (period : ℕ) (history : List D) (w : Window D) : Type ℓ where
    pub same_period : w.period ≡ pos period
    pub values_eq : w.values ≡ last_values period history
    pub sum_eq : w.sum ≡ total w.values

  module _ (laws : IsDecimal D) where
    open laws use {add_assoc, add_comm, add-zero}

    total-append : (vs : List D) (v : D) → total (vs ++ (v ∷ [])) ≡ add (total vs) v
    total-append [] v = add_comm v zero_dec
    total-append (w ∷ vs) v = rw (total-append vs v) (sym (add_assoc w (total vs) v))

    drop-suc : (k : ℕ) (vs ws : List D) (w : D) → drop k vs ≡ w ∷ ws → drop (suc k) vs ≡ ws
    drop-suc zero [] ws w h = ground (arith, h)
    drop-suc zero (v ∷ vs) ws w h = ground (arith, h)
    drop-suc (suc k) [] ws w h = ground (arith, h)
    drop-suc (suc k) (v ∷ vs) ws w h = drop-suc k vs ws w h

    drop_oldest-IsWindow :
        (n k : ℕ) (period : ℤ) (history values : List D) (sum : D)
        → period ≡ pos n
        → values ≡ drop k history
        → sum ≡ total values
        → suc k ≡ length history - n
        → IsWindow n history (drop_oldest period values sum)
    drop_oldest-IsWindow n k period history [] sum p e s h =
        let empty : 0 ≡ length (drop k history) = ap length e in
        absurd (omega (arith, length-drop k history, empty))
    drop_oldest-IsWindow n k period history (v ∷ vs) sum p e s h = record {
      same_period = p;
      values_eq = rw (← h) (sym (drop-suc k history vs v (sym e)));
      sum_eq = rw (s, add_comm v (total vs)) (add-sub laws (total vs) v);
    }

    pub slide-IsWindow :
        (n : ℕ) (history : List D) (v : D) (w : Window D)
        → 0 < n
        → IsWindow n history w
        → IsWindow n (history ++ (v ∷ [])) (slide v w)
    unfolding slide
    slide-IsWindow n history v w h is =
        let k = length history - n in
        let more = history ++ (v ∷ []) in
        let values = w.values ++ (v ∷ []) in
        let sum = add w.sum v in
        let longer : length more ≡ length history + 1 = length-append history (v ∷ []) in
        let added : values ≡ drop k more =
          rw is.values_eq (sym (drop-append k history (v ∷ []) (omega arith))) in
        let size : length values ≡ length more - k = ap length added ∙ length-drop k more in
        let summed : sum ≡ total values = rw is.sum_eq (sym (total-append w.values v)) in
        elim (Bool-cases (ltb_ℤ w.period (pos (length values)))) [
          | inl full ↦
              let over : n < length values = ground (arith, full, is.same_period) in
              rw full (
                drop_oldest-IsWindow n k w.period more values sum is.same_period added summed
                  (omega (arith, over, size, longer)))
          | inr free ↦
              let room : length values ≤ n = ground (arith, free, is.same_period) in
              let start : length more - n ≡ k = omega (arith, room, size, longer) in
              rw free (record {
                same_period = is.same_period;
                values_eq = rw start added;
                sum_eq = summed;
              })
        ]

    pub slides-IsWindow :
        (n : ℕ) (history vs : List D) (w : Window D)
        → 0 < n
        → IsWindow n history w
        → IsWindow n (history ++ vs) (slides vs w)
    unfolding slides
    slides-IsWindow n history [] w h is = rw (append-nil history) is
    slides-IsWindow n history (v ∷ vs) w h is = rw (← append_assoc history (v ∷ []) vs) (
        slides-IsWindow n (history ++ (v ∷ [])) vs (slide v w) h
          (slide-IsWindow n history v w h is))

    -- The mean of a full window of a positive period.
    pub mean-ok :
        (n : ℕ) (w : Window D)
        → w.period ≡ pos (suc n)
        → mean w
          ≡ ok (
              if ltb_ℤ (pos (length w.values)) w.period
              then zero_dec
              else div w.sum (of_int w.period))
    unfolding mean
    mean-ok n w p =
        let divisible : is_zero (of_int w.period) ≡ false =
          rw p (ne_zero_of_pos laws (of_int (pos (suc n))) (of_int_pos laws n)) in
        ground (arith, divisible)
