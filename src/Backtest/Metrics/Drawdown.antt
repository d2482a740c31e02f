-- ===== src/Backtest/Metrics/Drawdown.antt =====
-- MaxDrawdown of internal/backtest/metrics.go is the greatest fall from a peak of the equity curve.
use quant_bot.Prelude.{
  ◌≡◌, refl, sym, ap, ◌∙◌, ◌⊎◌, inl, inr, true, Bool-cases, List, [], ◌∷◌, ◌++◌, append_assoc, All,
  All-append, map, arith, if◌then◌else◌,
}
use mathlib.Core.List.{foldl}
use quant_bot.Decimal.{Decimal, IsDecimal, ◌≼◌}
use quant_bot.Decimal.Order.{le_refl, le_trans, le_of_lt}
use quant_bot.Backtest.{EquityPoint}
use quant_bot.Backtest.Metrics.{Metrics, next_drawdown, max_drawdown, max_drawdown_of}

-- A member of a list.
pub data In {ℓ} {A : Type ℓ} (x : A) : List A → Type ℓ where
  first : {y : A} {ys : List A} → x ≡ y → In x (y ∷ ys)
  later : {y : A} {ys : List A} → In x ys → In x (y ∷ ys)

module _ {ℓ} {A : Type ℓ} where
  In-append : {x : A} {xs : List A} (ys : List A) → In x xs → In x (xs ++ ys)
  In-append ys (first e) = first e
  In-append ys (later h) = later (In-append ys h)

  In_last : (xs : List A) (x y : A) → x ≡ y → In x (xs ++ (y ∷ []))
  In_last [] x y e = first e
  In_last (_ ∷ xs) x y e = later (In_last xs x y e)

module _ {ℓ} {D : Type ℓ} ⦃d : Decimal D⦄ where
  open d use {zero_dec, sub, div, greater_than, is_positive}

  abbrev pub equities : List (EquityPoint D) → List D
  equities = map (λ p. p.equity)

  -- The greatest of some equities.
  pub record IsPeak (peak : D) (seen : List D) : Type ℓ where
    pub bound : All (λ e. e ≼ peak) seen
    pub reached : In peak seen

  -- A share of a peak by which the equity falls from it: at some point of the curve, from the
  -- greatest equity up to it, which is positive. `seen` are the equities before the curve.
  pub record IsFall (seen : List D) (points : List (EquityPoint D)) (fall : D) : Type ℓ where
    pub before : List (EquityPoint D)
    pub point : EquityPoint D
    pub rest : List (EquityPoint D)
    pub peak : D
    pub splits : points ≡ before ++ (point ∷ rest)
    pub is_peak : IsPeak peak (seen ++ (equities before ++ (point.equity ∷ [])))
    pub positive : is_positive peak ≡ true
    pub is_fall : fall ≡ div (sub peak point.equity) peak

  IsFall-cons :
      (seen : List D) (p : EquityPoint D) (points : List (EquityPoint D)) (fall : D)
      → IsFall (seen ++ (p.equity ∷ [])) points fall
      → IsFall seen (p ∷ points) fall
  IsFall-cons seen p points fall f = record {
    before = p ∷ f.before;
    point = f.point;
    rest = f.rest;
    peak = f.peak;
    splits = ap (λ ps. p ∷ ps) f.splits;
    is_peak = rw append_assoc at f.is_peak;
    positive = f.positive;
    is_fall = f.is_fall;
  }

  module _ (laws : IsDecimal D) where
    All-weaken : (a b : D) (xs : List D) → a ≼ b → All (λ e. e ≼ a) xs → All (λ e. e ≼ b) xs
    All-weaken a b [] h all = tt
    All-weaken a b (x ∷ xs) h (p, ps) = (le_trans laws x a b p h, All-weaken a b xs h ps)

    All-In : (a b : D) (xs : List D) → All (λ e. e ≼ a) xs → In b xs → b ≼ a
    All-In a b [] p h = elim h [ ]
    All-In a b (x ∷ xs) (p, ps) (first e) = rw e p
    All-In a b (x ∷ xs) (p, ps) (later h) = All-In a b xs ps h

    IsPeak-unique : (a b : D) (xs : List D) → IsPeak a xs → IsPeak b xs → a ≡ b
    IsPeak-unique a b xs p q =
        laws.lt_total a b (All-In b a xs q.bound p.reached) (All-In a b xs p.bound q.reached)

    -- The peak after one more equity.
    IsPeak-step :
        (e hwm : D) (seen : List D)
        → IsPeak hwm seen
        → IsPeak (if greater_than e hwm then e else hwm) (seen ++ (e ∷ []))
    IsPeak-step e hwm seen p = elim (Bool-cases (greater_than e hwm)) [
      | inl g ↦
          let above : hwm ≼ e =
            le_of_lt laws hwm e (ground (arith, g, laws.greater_than-eq e hwm)) in
          rw g (record {
            bound =
                All-append _ seen (e ∷ []) (All-weaken hwm e seen above p.bound)
                  (le_refl laws e, tt);
            reached = In_last seen e e refl;
          })
      | inr g ↦
          let under : e ≼ hwm = ground (arith, g, laws.greater_than-eq e hwm) in
          rw g (record {
            bound = All-append _ seen (e ∷ []) p.bound (under, tt);
            reached = In-append (e ∷ []) p.reached;
          })
    ]

    abbrev dd_of : D → EquityPoint D → D
    dd_of hwm point =
        let peak = if greater_than point.equity hwm then point.equity else hwm in
        div (sub peak point.equity) peak

    abbrev peak_of : D → EquityPoint D → D
    peak_of hwm point = if greater_than point.equity hwm then point.equity else hwm

    -- The greatest drawdown after one more point is the old one or that of the point.
    next_cases :
        (hwm max : D) (point : EquityPoint D)
        → (((next_drawdown (hwm, max) point).1 ≡ max)
            × (is_positive (peak_of hwm point) ≡ true → dd_of hwm point ≼ max))
          ⊎ (((next_drawdown (hwm, max) point).1 ≡ dd_of hwm point)
              × (is_positive (peak_of hwm point) ≡ true)
              × (max ≼ dd_of hwm point))
    unfolding next_drawdown
    next_cases hwm max point = elim (Bool-cases (is_positive (peak_of hwm point))) [
      | inr e ↦ inl (rw e refl, λ positive. absurd (cc (e, positive)))
      | inl e ↦ elim (Bool-cases (greater_than (dd_of hwm point) max)) [
        | inl g ↦ inr (
          rw (e, g) refl,
          e,
          le_of_lt laws max (dd_of hwm point)
              (sym (laws.greater_than-eq (dd_of hwm point) max) ∙ g),
        )
        | inr g ↦ inl (rw (e, g) refl, λ _. sym (laws.greater_than-eq (dd_of hwm point) max) ∙ g)
      ]
    ]

    next_ge : (hwm max : D) (point : EquityPoint D) → max ≼ (next_drawdown (hwm, max) point).1
    next_ge hwm max point = elim (next_cases hwm max point) [
      | inl (same, _) ↦ rw same (le_refl laws max)
      | inr (taken, _, above) ↦ rw taken above
    ]

    next_ge_fall :
        (hwm max : D) (point : EquityPoint D)
        → is_positive (peak_of hwm point) ≡ true
        → dd_of hwm point ≼ (next_drawdown (hwm, max) point).1
    next_ge_fall hwm max point positive = elim (next_cases hwm max point) [
      | inl (same, below) ↦ rw same (below positive)
      | inr (taken, _, above) ↦ rw taken (le_refl laws (dd_of hwm point))
    ]

    loop_ge :
        (hwm max : D) (points : List (EquityPoint D))
        → max ≼ (foldl next_drawdown (hwm, max) points).1
    loop_ge hwm max [] = le_refl laws max
    loop_ge hwm max (point ∷ points) =
        let next = next_drawdown (hwm, max) point in
        le_trans laws max next.1 (foldl next_drawdown next points).1 (next_ge hwm max point)
          (loop_ge next.0 next.1 points)

    next_peak :
        (hwm max : D) (point : EquityPoint D)
        → (next_drawdown (hwm, max) point).0 ≡ peak_of hwm point
    unfolding next_drawdown
    next_peak hwm max point = refl

    loop_falls :
        (before rest : List (EquityPoint D)) (point : EquityPoint D) (hwm max peak : D)
        (seen : List D)
        → IsPeak hwm seen
        → IsPeak peak (seen ++ (equities before ++ (point.equity ∷ [])))
        → is_positive peak ≡ true
        → div (sub peak point.equity) peak
          ≼ (foldl next_drawdown (hwm, max) (before ++ (point ∷ rest))).1
    loop_falls [] rest point hwm max peak seen top is_peak positive =
        let next = next_drawdown (hwm, max) point in
        let same =
          IsPeak-unique peak (peak_of hwm point) (seen ++ (point.equity ∷ [])) is_peak
            (IsPeak-step point.equity hwm seen top) in
        rw same (
          le_trans laws (dd_of hwm point) next.1 (foldl next_drawdown next rest).1
            (next_ge_fall hwm max point (rw (← same) positive)) (loop_ge next.0 next.1 rest))
    loop_falls (b ∷ before) rest point hwm max peak seen top is_peak positive =
        let next = next_drawdown (hwm, max) b in
        let regroup = append_assoc seen (b.equity ∷ []) (equities before ++ (point.equity ∷ [])) in
        loop_falls before rest point next.0 next.1 peak (seen ++ (b.equity ∷ []))
          (rw (next_peak hwm max b) (IsPeak-step b.equity hwm seen top)) (rw regroup is_peak)
          positive

    loop_attained :
        (points : List (EquityPoint D)) (hwm max : D) (seen : List D)
        → IsPeak hwm seen
        → ((foldl next_drawdown (hwm, max) points).1 ≡ max)
          ⊎ IsFall seen points (foldl next_drawdown (hwm, max) points).1
    loop_attained [] hwm max seen top = inl refl
    loop_attained (point ∷ points) hwm max seen top =
        let next = next_drawdown (hwm, max) point in
        let peak = IsPeak-step point.equity hwm seen top in
        elim (loop_attained points next.0 next.1 (seen ++ (point.equity ∷ []))
          (rw (next_peak hwm max point) peak)) [
            | inr later_fall ↦ inr (IsFall-cons seen point points _ later_fall)
            | inl kept ↦ elim (next_cases hwm max point) [
              | inl (same, _) ↦ inl (kept ∙ same)
              | inr (taken, positive, _) ↦ inr (record {
                before = [];
                point = point;
                rest = points;
                peak = peak_of hwm point;
                splits = refl;
                is_peak = peak;
                positive = positive;
                is_fall = kept ∙ taken;
              })
            ]
          ]

    first_peak : (q : EquityPoint D) → peak_of q.equity q ≡ q.equity
    first_peak q = elim (Bool-cases (greater_than q.equity q.equity)) [
      | inl e ↦ rw e refl
      | inr e ↦ rw e refl
    ]

    IsPeak-one : (e : D) → IsPeak e (e ∷ [])
    IsPeak-one e = record { bound = (le_refl laws e, tt); reached = first refl }

    curve_falls :
        (before rest : List (EquityPoint D)) (point : EquityPoint D) (peak : D)
        → IsPeak peak (equities before ++ (point.equity ∷ []))
        → is_positive peak ≡ true
        → div (sub peak point.equity) peak ≼ max_drawdown_of (before ++ (point ∷ rest))
    unfolding max_drawdown_of
    curve_falls [] rest point peak is_peak positive =
        let next = next_drawdown (point.equity, zero_dec) point in
        let same =
          IsPeak-unique peak point.equity (point.equity ∷ []) is_peak (IsPeak-one point.equity)
          ∙ sym (first_peak point) in
        rw same (
          le_trans laws (dd_of point.equity point) next.1 (foldl next_drawdown next rest).1
            (next_ge_fall point.equity zero_dec point (rw (← same) positive))
            (loop_ge next.0 next.1 rest))
    curve_falls (b ∷ before) rest point peak is_peak positive =
        let next = next_drawdown (b.equity, zero_dec) b in
        loop_falls before rest point next.0 next.1 peak (b.equity ∷ [])
          (rw (next_peak b.equity zero_dec b, first_peak b) (IsPeak-one b.equity)) is_peak positive

    curve_attained :
        (points : List (EquityPoint D))
        → (max_drawdown_of points ≡ zero_dec) ⊎ IsFall [] points (max_drawdown_of points)
    unfolding max_drawdown_of
    curve_attained [] = inl refl
    curve_attained (point ∷ points) =
        let next = next_drawdown (point.equity, zero_dec) point in
        let top : IsPeak next.0 (point.equity ∷ []) =
          rw (next_peak point.equity zero_dec point, first_peak point) (IsPeak-one point.equity) in
        elim (loop_attained points next.0 next.1 (point.equity ∷ []) top) [
          | inr later_fall ↦ inr (IsFall-cons [] point points _ later_fall)
          | inl kept ↦ elim (next_cases point.equity zero_dec point) [
            | inl (same, _) ↦ inl (kept ∙ same)
            | inr (taken, positive, _) ↦ inr (record {
              before = [];
              point = point;
              rest = points;
              peak = peak_of point.equity point;
              splits = refl;
              is_peak = rw (first_peak point) (IsPeak-one point.equity);
              positive = positive;
              is_fall = kept ∙ taken;
            })
          ]
        ]

    curve_nonneg : (points : List (EquityPoint D)) → zero_dec ≼ max_drawdown_of points
    unfolding max_drawdown_of
    curve_nonneg [] = le_refl laws zero_dec
    curve_nonneg (point ∷ points) = loop_ge point.equity zero_dec (point ∷ points)

    -- The maximum drawdown is zero or one of the falls of the equity curve from the greatest equity
    -- so far, where that is positive, as a share of it; none of these falls is greater, and it is
    -- not negative.
    pub max_drawdown-IsFall :
        (m : Metrics D)
        → ((max_drawdown m ≡ zero_dec) ⊎ IsFall [] m.equity_curve (max_drawdown m))
          × ((fall : D) → IsFall [] m.equity_curve fall → fall ≼ max_drawdown m)
          × (zero_dec ≼ max_drawdown m)
    unfolding max_drawdown
    max_drawdown-IsFall m = (
      curve_attained m.equity_curve,
      λ fall f.
          rw (f.splits, f.is_fall)
            (curve_falls f.before f.rest f.point f.peak f.is_peak f.positive),
      curve_nonneg m.equity_curve,
    )
