-- ===== src/Risk/Engine/Total.antt =====
-- The risk engine of internal/risk/engine.go answers every signal.
use quant_bot.Prelude.{ℕ, ◌≡◌, ◌≢◌, inl, inr, String, Bool, true, false, Option, none, some, arith}
use quant_bot.Prelude.Int.{ℤ}
use quant_bot.Decimal.{Decimal, IsDecimal}
use quant_bot.Decimal.Order.{ne_zero_of_pos}
use quant_bot.Types.{
  ok, panic, reject_if, or_error, invalid_symbol, Error, >>=-ne-panic, Result-cases, Signal,
  MarketEvent, InstrumentSpec, get_instrument_spec, instrument_mes, instrument_mgc,
}
use quant_bot.Risk.Sizer.{PositionSizer, calculate_with_details, new_position_sizer_for_symbol}
use quant_bot.Risk.Engine.{
  Config, Engine, Env, get_or_create_sizer, check_exposure_limits, atr_stop, stop_distance,
  size_order, validate_and_size, update_equity, enter_safe_mode_locked,
}

reject_if-ne-panic : (bad : Bool) (reason : Error) → reject_if bad reason ≢ panic
reject_if-ne-panic bad reason h = ground (arith, h)

or_error-ne-panic {ℓ} : {A : Type ℓ} (o : Option A) (reason : Error) → or_error o reason ≢ panic
or_error-ne-panic none reason h = cc
or_error-ne-panic (some a) reason h = cc

or_error-some {ℓ} :
    {A : Type ℓ} (o : Option A) (reason : Error) {a : A} → or_error o reason ≡ ok a → o ≡ some a
or_error-some none reason h = cc
or_error-some (some a) reason h = cc

module _ {ℓ} {D : Type ℓ} ⦃d : Decimal D⦄ where
  open d use {literal, is_zero}

  check_exposure_limits-ne-panic :
      (e : Engine D) (symbol : String) (contracts : ℤ) (spec : InstrumentSpec D)
      → check_exposure_limits e symbol contracts spec ≢ panic
  unfolding check_exposure_limits
  check_exposure_limits-ne-panic e symbol contracts spec h = ground (arith, h)

  get_or_create_sizer-ne-panic :
      (symbol : String) (e : Engine D) → (get_or_create_sizer symbol e).1 ≢ panic
  unfolding get_or_create_sizer new_position_sizer_for_symbol
  get_or_create_sizer-ne-panic symbol e h = ground (arith, h)

  get_or_create_sizer-cfg :
      (symbol : String) (e : Engine D) → (get_or_create_sizer symbol e).0.cfg ≡ e.cfg
  unfolding get_or_create_sizer
  get_or_create_sizer-cfg symbol e = ground arith

  -- No call changes the configuration.
  pub validate_and_size-cfg :
      (env : Env) (signal : Signal D) (event : MarketEvent D) (e : Engine D)
      → (validate_and_size env signal event e).0.cfg ≡ e.cfg
  unfolding validate_and_size get_or_create_sizer enter_safe_mode_locked
  validate_and_size-cfg env signal event e = ground arith

  pub update_equity-cfg :
      (now : ℕ) (equity : D) (e : Engine D) → (update_equity now equity e).cfg ≡ e.cfg
  unfolding update_equity enter_safe_mode_locked
  update_equity-cfg now equity e = ground arith

  -- Only an operator leaves the safe mode.
  pub update_equity_safe :
      (now : ℕ) (equity : D) (e : Engine D)
      → e.safe_mode ≡ true
      → (update_equity now equity e).safe_mode ≡ true
  unfolding update_equity enter_safe_mode_locked
  update_equity_safe now equity e safe = ground arith

  module _ (laws : IsDecimal D) where
    tick_size_ne_zero :
        (symbol : String) (spec : InstrumentSpec D)
        → get_instrument_spec symbol ≡ some spec
        → is_zero spec.tick_size ≡ false
    unfolding get_instrument_spec instrument_mes instrument_mgc
    tick_size_ne_zero symbol spec h =
        let mes = ne_zero_of_pos laws (literal 25 2) (laws.literal_pos 25 2 (omega arith)) in
        let mgc = ne_zero_of_pos laws (literal 10 2) (laws.literal_pos 10 2 (omega arith)) in
        ground (arith, h, mes, mgc)

    stop_distance-ne-panic :
        (cfg : Config D) (spec : InstrumentSpec D) (signal : Signal D) (event : MarketEvent D)
        → is_zero spec.tick_size ≡ false
        → stop_distance cfg spec signal event ≢ panic
    unfolding stop_distance atr_stop
    stop_distance-ne-panic cfg spec signal event z h = ground (arith, z, h)

    size_order-ne-panic :
        (env : Env) (signal : Signal D) (event : MarketEvent D) (e : Engine D)
        (sizer : PositionSizer D)
        → is_zero e.cfg.stop_loss_atr_multiple ≡ false
        → size_order env signal event e sizer ≢ panic
    unfolding size_order
    size_order-ne-panic env signal event e sizer z =
        >>=-ne-panic (or_error (get_instrument_spec signal.symbol) invalid_symbol) _
          (or_error-ne-panic (get_instrument_spec signal.symbol) invalid_symbol)
          λ spec found.
            >>=-ne-panic (stop_distance e.cfg spec signal event) _
              (stop_distance-ne-panic e.cfg spec signal event (
                tick_size_ne_zero signal.symbol spec
                  (or_error-some (get_instrument_spec signal.symbol) invalid_symbol found)))
              λ stop _ h.
                let size =
                  calculate_with_details sizer e.hwm.current e.cfg.risk_per_trade_pct stop
                    event.close signal.direction spec.tick_size in
                elim (Result-cases (check_exposure_limits e signal.symbol size.contracts spec)) [
                  | inl (_, f) ↦ ground (arith, h, z, f)
                  | inr (inl (_, f)) ↦ ground (arith, h, z, f)
                  | inr (inr f) ↦
                      check_exposure_limits-ne-panic e signal.symbol size.contracts spec f
                ]

    -- With a stop multiple that is not zero no validation panics: it issues an intent or gives an error.
    pub validate_and_size-ne-panic :
        (env : Env) (signal : Signal D) (event : MarketEvent D) (e : Engine D)
        → is_zero e.cfg.stop_loss_atr_multiple ≡ false
        → (validate_and_size env signal event e).1 ≢ panic
    unfolding validate_and_size
    validate_and_size-ne-panic env signal event e z h =
        let (e', sizer) = get_or_create_sizer signal.symbol e in
        let z' : is_zero e'.cfg.stop_loss_atr_multiple ≡ false =
          rw (get_or_create_sizer-cfg signal.symbol e) z in
        let sized =
          >>=-ne-panic sizer (size_order env signal event e')
            (get_or_create_sizer-ne-panic signal.symbol e)
            (λ p _. size_order-ne-panic env signal event e' p z') in
        ground (arith, h, sized)
