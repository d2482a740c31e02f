-- ===== src/Indicator/Calculator.antt =====
-- internal/observer/calculator.go: the indicators of a stream of bars.
use quant_bot.Prelude.{
  ℕ, zero, suc, ap, ◌≡◌, refl, ◌∙◌, Bool, true, false, ◌&&◌, List, [], ◌∷◌, arith, if◌then◌else◌,
  length,
}
use quant_bot.Prelude.Int.{ℤ, pos, negsuc, ltb_ℤ}
use quant_bot.Decimal.{Decimal, IsDecimal}
use quant_bot.Types.{Result, ok, ◌>>=◌, >>=-eq-ok, MarketEvent}
use quant_bot.Indicator.Window.{Window, at_least_one, is_ready, slide, slide-period}
use quant_bot.Indicator.Sma as Sma
use quant_bot.Indicator.Atr as Atr
use quant_bot.Indicator.StdDev.{
  StdDev, new_std_dev, update_std_dev, reset_std_dev, IsShared, HasRoots, update_std_dev-ok,
}

pub record CalculatorConfig : Type 0 where
  pub atr_period : ℤ
  pub std_dev_period : ℤ
  pub sma_period : ℤ

unfoldable pub default_calculator_config : CalculatorConfig
default_calculator_config = record {
  atr_period = pos 14;
  std_dev_period = pos 20;
  sma_period = pos 20;
}

pub record Calculator {ℓ} (D : Type ℓ) : Type ℓ where
  pub cfg : CalculatorConfig
  pub atr : Atr.Atr D
  pub std_dev : StdDev D
  pub sma : Window D

at_least_one-pos : (n : ℤ) → (k : ℕ) × (at_least_one n ≡ pos (suc k))
unfolding at_least_one
at_least_one-pos (pos zero) = (0, refl)
at_least_one-pos (pos (suc k)) = (k, ground arith)
at_least_one-pos (negsuc k) = (0, ground arith)

at_least_one-twice : (n : ℤ) → at_least_one (at_least_one n) ≡ at_least_one n
at_least_one-twice n =
    let (k, e) = at_least_one-pos n in
    let one : at_least_one (pos (suc k)) ≡ pos (suc k) = unfold at_least_one in ground arith in
    rw e one

module _ {ℓ} {D : Type ℓ} ⦃d : Decimal D⦄ where
  unfoldable pub new_calculator : CalculatorConfig → Calculator D
  new_calculator cfg = record {
    cfg = cfg;
    atr = Atr.new_atr cfg.atr_period;
    std_dev = new_std_dev cfg.std_dev_period;
    sma = Sma.new_sma cfg.sma_period;
  }

  unfoldable pub on_bar : MarketEvent D → Calculator D → Result (Calculator D × MarketEvent D)
  on_bar event c = Atr.update (event.high, event.low, event.close) c.atr >>= λ (atr, range).
      update_std_dev event.close c.std_dev >>= λ (std_dev, deviation).
      Sma.update event.close c.sma >>= λ (sma, m). ok (
        record c { atr = atr; std_dev = std_dev; sma = sma },
        record event { atr = range; std_dev = deviation },
      )

  unfoldable pub reset : Calculator D → Calculator D
  reset c = record c {
    atr = Atr.reset c.atr;
    std_dev = reset_std_dev c.std_dev;
    sma = Sma.reset c.sma;
  }

  unfoldable pub is_ready_calculator : Calculator D → Bool
  is_ready_calculator c =
      is_ready c.atr.window
      && (if ltb_ℤ (pos (length c.std_dev.values)) c.std_dev.period then false else true)

  unfoldable pub on_bars : List (MarketEvent D) → Calculator D → Result (Calculator D)
  on_bars [] c = ok c
  on_bars (event ∷ events) c = on_bar event c >>= λ r. on_bars events r.0

  -- The calculator takes any bars without a panic.
  unfoldable pub IsTotal : Calculator D → Type ℓ
  IsTotal c = (events : List (MarketEvent D)) → (c' : Calculator D) × (on_bars events c ≡ ok c')

  pub IsTotal-on_bar :
      (event : MarketEvent D) (c : Calculator D)
      → IsTotal c
      → (r : Calculator D × MarketEvent D) × (on_bar event c ≡ ok r) × IsTotal r.0
  unfolding IsTotal on_bars
  IsTotal-on_bar event c total =
      let (c1, one) = total (event ∷ []) in
      let (r, first, _) = >>=-eq-ok (on_bar event c) _ one in
      (
        r,
        first,
        λ events.
            let (c2, run) = total (event ∷ events) in
            let (r', first', rest) = >>=-eq-ok (on_bar event c) _ run in
            let same : r' ≡ r = cc (first, first') in (c2, rw same at rest),
      )

  -- The periods of the calculator are positive.
  record IsSound (c : Calculator D) : Type ℓ where
    n_atr : ℕ
    n_std_dev : ℕ
    n_sma : ℕ
    atr : c.atr.window.period ≡ pos (suc n_atr)
    std_dev : c.std_dev.sma.period ≡ pos (suc n_std_dev)
    shared : IsShared c.std_dev
    sma : c.sma.period ≡ pos (suc n_sma)

  new_calculator-IsSound : (cfg : CalculatorConfig) → IsSound (new_calculator cfg)
  unfolding new_calculator Atr.new_atr new_std_dev Sma.new_sma
  new_calculator-IsSound cfg =
      let (i, p) = at_least_one-pos cfg.atr_period in
      let (j, q) = at_least_one-pos cfg.std_dev_period in
      let (k, e) = at_least_one-pos cfg.sma_period in
      record {
        n_atr = i;
        n_std_dev = j;
        n_sma = k;
        atr = p;
        std_dev = at_least_one-twice cfg.std_dev_period ∙ q;
        shared = (at_least_one-twice cfg.std_dev_period, refl);
        sma = e;
      }

  module _ (laws : IsDecimal D) (roots : HasRoots D) where
    on_bar-IsSound :
        (event : MarketEvent D) (c : Calculator D)
        → IsSound c
        → (r : Calculator D × MarketEvent D) × (on_bar event c ≡ ok r) × IsSound r.0
    unfolding on_bar
    on_bar-IsSound event c h =
        let bar : D × D × D = (event.high, event.low, event.close) in
        let (m, atr, f, p, _) = Atr.update-ok laws h.n_atr bar c.atr h.atr in
        let (y, std_dev, g, shared, slid, _) =
          update_std_dev-ok laws roots h.n_std_dev event.close c.std_dev h.shared h.std_dev in
        let (k, e, _) = Sma.update-ok laws h.n_sma event.close c.sma h.sma in
        let r : Calculator D × MarketEvent D = (
          record c { atr = atr; std_dev = std_dev; sma = slide event.close c.sma },
          record event { atr = m; std_dev = y },
        ) in
        (
          r,
          rw (f, g, e) refl,
          record {
            n_atr = h.n_atr;
            n_std_dev = h.n_std_dev;
            n_sma = h.n_sma;
            atr = p;
            std_dev = ap (λ w. w.period) slid ∙ slide-period event.close c.std_dev.sma ∙ h.std_dev;
            shared = shared;
            sma = slide-period event.close c.sma ∙ h.sma;
          },
        )

    IsSound-on_bars :
        (events : List (MarketEvent D)) (c : Calculator D)
        → IsSound c
        → (c' : Calculator D) × (on_bars events c ≡ ok c')
    unfolding on_bars
    IsSound-on_bars [] c h = (c, refl)
    IsSound-on_bars (event ∷ events) c h =
        let (r, first, h') = on_bar-IsSound event c h in
        let (c', rest) = IsSound-on_bars events r.0 h' in (c', rw first rest)

    -- A new calculator of any periods takes any bars without a panic, where every square root of the
    -- standard deviation comes out.
    pub new_calculator-IsTotal : (cfg : CalculatorConfig) → IsTotal (new_calculator cfg)
    unfolding IsTotal
    new_calculator-IsTotal cfg events =
        IsSound-on_bars events (new_calculator cfg) (new_calculator-IsSound cfg)
