-- ===== src/Config/Valid.antt =====
-- What a configuration that internal/config/config.go validates gives the risk engine.
use quant_bot.Prelude.{
  ℕ, ◌≡◌, refl, String, Bool, true, false, not, ◌||◌, List, [], ◌∷◌, ◌++◌, arith, some,
  Option-cases, inl, inr,
}
use quant_bot.Prelude.Int.{pos, ltb_ℤ}
use quant_bot.Decimal.{Decimal, ◌≺◌, ◌≼◌}
use quant_bot.Types.{ok, >>=-eq-ok, get_instrument_spec, InstrumentSpec}
use quant_bot.Risk.Engine as Risk
use quant_bot.Config.{
  Floats, Config, ExecutionConfig, report_if, account_errors, market_errors, is_supported,
  risk_errors, validate, to_risk_config, with_defaults,
}

append-[] {ℓ} : {A : Type ℓ} (xs ys : List A) → xs ++ ys ≡ [] → (xs ≡ []) × (ys ≡ [])
append-[] [] ys e = (refl, e)
append-[] (x ∷ xs) ys e = absurd (cc e)

report_if-[] : (bad : Bool) (message : String) → report_if bad message ≡ [] → bad ≡ false
unfolding report_if
report_if-[] bad message e = ground (arith, e)

timeout_positive : (e : ExecutionConfig) → ltb_ℤ (pos 0) (with_defaults e).order_timeout_sec ≡ true
unfolding with_defaults
timeout_positive e = ground arith

module _ {ℓ} {D : Type ℓ} ⦃d : Decimal D⦄ where
  open d use {zero_dec, literal}

  -- The limits of a risk engine lie where they limit something.
  pub record IsSafe (r : Risk.Config D) : Type ℓ where
    pub drawdown :
        (zero_dec ≺ r.max_global_drawdown_pct) × (r.max_global_drawdown_pct ≼ literal 1 0)
    pub risk : (zero_dec ≺ r.risk_per_trade_pct) × (r.risk_per_trade_pct ≼ literal 1 1)
    pub per_symbol :
        (zero_dec ≺ r.max_exposure_per_symbol_pct) × (r.max_exposure_per_symbol_pct ≼ literal 1 0)
    pub total : (zero_dec ≺ r.max_total_exposure_pct) × (r.max_total_exposure_pct ≼ literal 2 0)
    pub stop : zero_dec ≺ r.stop_loss_atr_multiple
    pub target : zero_dec ≺ r.take_profit_atr_multiple

module _ {ℓ} {F D : Type ℓ} ⦃d : Decimal D⦄ where
  open d use {zero_dec, literal, less_than}

  -- The tests of a finite number are those of its decimal.
  pub record IsFloats (floats : Floats F D) : Type ℓ where
    pub le_zero-eq :
        (x : F) (y : D)
        → floats.new_from_float x ≡ ok y
        → floats.le_zero x ≡ not (less_than zero_dec y)
    pub is_above-eq :
        (x : F) (y : D) (v e : ℕ)
        → floats.new_from_float x ≡ ok y
        → floats.is_above x v e ≡ less_than (literal v e) y

  module _ (floats : Floats F D) (laws : IsFloats floats) where
    positive :
        (x : F) (y : D) → floats.new_from_float x ≡ ok y → floats.le_zero x ≡ false → zero_dec ≺ y
    positive x y e h = ground (arith, h, laws.le_zero-eq x y e)

    within :
        (x : F) (y : D) (v e : ℕ)
        → floats.new_from_float x ≡ ok y
        → (floats.le_zero x || floats.is_above x v e) ≡ false
        → (zero_dec ≺ y) × (y ≼ literal v e)
    within x y v e f h =
        (ground (arith, h, laws.le_zero-eq x y f), ground (arith, h, laws.is_above-eq x y v e f))

    account-valid :
        (c : Config F)
        → account_errors floats c.account ≡ []
        → ((floats.le_zero c.account.max_global_drawdown_pct
              || floats.is_above c.account.max_global_drawdown_pct 1 0)
            ≡ false)
          × ((floats.le_zero c.account.risk_per_trade_pct
                || floats.is_above c.account.risk_per_trade_pct 1 1)
              ≡ false)
    unfolding account_errors
    account-valid c e =
        let (a, rest) = append-[] _ _ e in
        let (b, f) = append-[] _ _ rest in (report_if-[] _ _ b, report_if-[] _ _ f)

    risk-valid :
        (c : Config F)
        → risk_errors floats c.risk ≡ []
        → (floats.le_zero c.risk.stop_loss_atr_multiple ≡ false)
          × (floats.le_zero c.risk.take_profit_atr_multiple ≡ false)
          × ((floats.le_zero c.risk.max_exposure_per_symbol_pct
                || floats.is_above c.risk.max_exposure_per_symbol_pct 1 0)
              ≡ false)
          × ((floats.le_zero c.risk.max_total_exposure_pct
                || floats.is_above c.risk.max_total_exposure_pct 2 0)
              ≡ false)
    unfolding risk_errors
    risk-valid c e =
        let (a, rest) = append-[] _ _ e in
        let (b, rest') = append-[] _ _ rest in
        let (f, g) = append-[] _ _ rest' in
        (report_if-[] _ _ a, report_if-[] _ _ b, report_if-[] _ _ f, report_if-[] _ _ g)

    market-valid :
        (symbol : String)
        → market_errors floats symbol ≡ []
        → (spec : InstrumentSpec D) × (get_instrument_spec symbol ≡ some spec)
    unfolding market_errors is_supported
    market-valid symbol e =
        let (a, b) = append-[] _ _ e in
        let named = report_if-[] _ _ a in
        let supported = report_if-[] _ _ b in
        elim (Option-cases (get_instrument_spec {D = D} symbol)) [
          | inl f ↦ absurd (ground (arith, named, supported, f))
          | inr (spec, f) ↦ (spec, f)
        ]

    to_risk_config-IsSafe :
        (c : Config F) (r : Risk.Config D)
        → to_risk_config floats c ≡ ok r
        → account_errors floats c.account ≡ []
        → risk_errors floats c.risk ≡ []
        → IsSafe r
    unfolding to_risk_config
    to_risk_config-IsSafe c r e account risk =
        let (drawdown, per_trade) = account-valid c account in
        let (stop, target, per_symbol, total) = risk-valid c risk in
        let (y1, f1, e1) =
          >>=-eq-ok (floats.new_from_float c.account.max_global_drawdown_pct) _ e in
        let (y2, f2, e2) = >>=-eq-ok (floats.new_from_float c.account.risk_per_trade_pct) _ e1 in
        let (y3, f3, e3) =
          >>=-eq-ok (floats.new_from_float c.risk.max_exposure_per_symbol_pct) _ e2 in
        let (y4, f4, e4) = >>=-eq-ok (floats.new_from_float c.risk.max_total_exposure_pct) _ e3 in
        let (y5, f5, e5) = >>=-eq-ok (floats.new_from_float c.risk.stop_loss_atr_multiple) _ e4 in
        let (y6, f6, e6) = >>=-eq-ok (floats.new_from_float c.risk.take_profit_atr_multiple) _ e5 in
        let is : r ≡ record {
          max_global_drawdown_pct = y1;
          risk_per_trade_pct = y2;
          max_exposure_per_symbol_pct = y3;
          max_total_exposure_pct = y4;
          stop_loss_atr_multiple = y5;
          take_profit_atr_multiple = y6;
        } =
          cc e6 in
        rw is (record {
          drawdown = within _ y1 1 0 f1 drawdown;
          risk = within _ y2 1 1 f2 per_trade;
          per_symbol = within _ y3 1 0 f3 per_symbol;
          total = within _ y4 2 0 f4 total;
          stop = positive _ y5 f5 stop;
          target = positive _ y6 f6 target;
        })

    -- A configuration that is validated without an error, and whose numbers are finite, has a known
    -- instrument, a timeout of at least a second for orders, and for the risk engine a drawdown
    -- limit, a risk for each trade, limits of the exposure and multiples of the stops that are
    -- positive, the first four at most 1, 0.1, 1 and 2.
    pub validate-IsSafe :
        (c c' : Config F) (r : Risk.Config D)
        → validate floats c ≡ (c', [])
        → to_risk_config floats c' ≡ ok r
        → ((spec : InstrumentSpec D) × (get_instrument_spec c'.instrument_primary ≡ some spec))
          × (ltb_ℤ (pos 0) c'.execution.order_timeout_sec ≡ true)
          × IsSafe r
    unfolding validate
    validate-IsSafe c c' r e f =
        let is : c' ≡ record c { execution = with_defaults c.execution } = cc e in
        let none_left : (validate floats c).1 ≡ [] = cc e in
        let (account, rest) = append-[] _ _ none_left in
        let (market, rest') = append-[] _ _ rest in
        let (risk, stored) = append-[] _ _ rest' in
        let g = rw is at f in
        rw is (
          market-valid c.instrument_primary market,
          timeout_positive c.execution,
          to_risk_config-IsSafe (record c { execution = with_defaults c.execution }) r g account
              risk,
        )
