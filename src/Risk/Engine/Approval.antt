-- ===== src/Risk/Engine/Approval.antt =====
-- What the risk engine has checked when it issues an order intent.
use mathlib.Core.List.{foldl}
use quant_bot.Prelude.Dict.{Dict, lookup}
use quant_bot.Prelude.{
  refl, [], ◌∷◌, Option, none, str_eq, if◌then◌else◌, Bool-cases, ◌≡◌, sym, ap, ◌∙◌, inl, inr,
  String, true, false, some, arith, Option-cases,
}
use quant_bot.Prelude.Int.{ℤ, pos, ◌≤ℤ◌, ◌<ℤ◌}
use quant_bot.Decimal.{Decimal, IsDecimal, ◌≺◌, ◌≼◌}
use quant_bot.Types.{
  Result, ok, err, panic, ◌>>=◌, Result-cases, Signal, MarketEvent, OrderIntent, InstrumentSpec,
  get_instrument_spec, Position,
}
use quant_bot.Risk.HighWater.{drawdown}
use quant_bot.Risk.Sizer.{PositionSizer, SizeResult, calculate_with_details}
use quant_bot.Risk.Sizer.Details.{IsStop, calculate_with_details-IsSized}
use quant_bot.Risk.Engine.Sizers.{get_or_create_sizer_engine, size_order-sizers}
use quant_bot.Risk.Engine.{
  Engine, Env, validate_and_size, get_or_create_sizer, size_order, check_exposure_limits,
  stop_distance, symbol_margin, total_margin, margin_per_contract, add_position_margin,
}

module _ {ℓ} {D : Type ℓ} ⦃d : Decimal D⦄ where
  open d use {zero_dec, of_int, add, mul, is_zero}

  -- The margin of so many contracts at the intraday rate, or at the initial one where that is zero.
  pub margin_of : InstrumentSpec D → ℤ → D
  margin_of spec contracts = elim (is_zero spec.margin_intra) [
    | true ↦ mul spec.margin_initial (of_int contracts)
    | false ↦ mul spec.margin_intra (of_int contracts)
  ]

  -- The margin of the new contracts with that of the contracts that the symbol holds.
  pub margin_with : InstrumentSpec D → ℤ → Option (Position D) → D
  margin_with spec contracts none = margin_of spec contracts
  margin_with spec contracts (some p) = add (margin_of spec contracts) (margin_of spec p.contracts)

  -- The margins of the positions of known symbols other than this one.
  pub margin_of_others : String → Dict (Position D) → D
  margin_of_others symbol [] = zero_dec
  margin_of_others symbol ((name, p) ∷ rest) =
      let others = margin_of_others symbol rest in
      if str_eq name symbol then others else elim (get_instrument_spec {D = D} name) [
        | none ↦ others
        | some spec ↦ add (margin_of spec p.contracts) others
      ]

-- What holds of an intent that is issued for `signal` at `event`, with `spec` and the stop distance.
pub record IsApproved {ℓ} {D : Type ℓ} ⦃d : Decimal D⦄ (signal : Signal D) (event : MarketEvent D)
    (e : Engine D) (spec : InstrumentSpec D) (stop : ℤ) (intent : OrderIntent D) : Type ℓ where
  pub known : get_instrument_spec signal.symbol ≡ some spec
  pub distance : stop_distance e.cfg spec signal event ≡ ok stop
  pub stop_pos : pos 0 <ℤ stop
  pub same_symbol : intent.symbol ≡ signal.symbol
  pub same_side : intent.side ≡ signal.direction
  pub same_price : intent.entry_price ≡ event.close
  pub contracts_pos : pos 1 ≤ℤ intent.contracts
  pub stops :
      IsStop signal.direction event.close (d.mul spec.tick_size (d.of_int stop)) intent.stop_loss
  pub symbol_exposure :
      margin_with spec intent.contracts (lookup signal.symbol e.positions)
      ≼ d.mul e.hwm.current e.cfg.max_exposure_per_symbol_pct
  pub total_exposure :
      d.add
        (margin_with spec intent.contracts (lookup signal.symbol e.positions))
        (margin_of_others signal.symbol e.positions)
      ≼ d.mul e.hwm.current e.cfg.max_total_exposure_pct

module _ {ℓ} {D : Type ℓ} ⦃d : Decimal D⦄ (laws : IsDecimal D) where
  open d use {zero_dec, of_int, mul, add, sub, div}
  open laws use {greater_than-eq, greater_than_or_equal-eq, literal_pos, mul_pos}

  rate-eq :
      (spec : InstrumentSpec D) (contracts : ℤ)
      → mul (margin_per_contract spec) (of_int contracts) ≡ margin_of spec contracts
  unfolding margin_per_contract margin_of
  rate-eq spec contracts = elim (Bool-cases (d.is_zero spec.margin_intra)) [
    | inl z ↦ rw (z, margin_of) refl
    | inr z ↦ rw (z, margin_of) refl
  ]

  symbol_margin-eq :
      (symbol : String) (contracts : ℤ) (spec : InstrumentSpec D) (positions : Dict (Position D))
      → symbol_margin symbol contracts spec positions
        ≡ margin_with spec contracts (lookup symbol positions)
  unfolding symbol_margin margin_with
  symbol_margin-eq symbol contracts spec positions =
      let rate = rate-eq spec contracts in
      elim (Option-cases (lookup symbol positions)) [
        | inl e ↦ rw (e, symbol_margin) rate
        | inr (p, e) ↦ rw (e, symbol_margin, rate, rate-eq spec p.contracts) refl
      ]

  fold-others :
      (symbol : String) (sum : D) (positions : Dict (Position D))
      → foldl (add_position_margin symbol) sum positions
        ≡ add sum (margin_of_others symbol positions)
  unfolding add_position_margin margin_of_others
  fold-others symbol sum [] = sym (laws.add-zero sum)
  fold-others symbol sum ((name, p) ∷ rest) =
      let others = margin_of_others symbol rest in
      elim (Bool-cases (str_eq name symbol)) [
        | inl e ↦ rw (e, margin_of_others) (fold-others symbol sum rest)
        | inr e ↦ elim (Option-cases (get_instrument_spec {D = D} name)) [
          | inl f ↦ rw (e, f, margin_of_others) (fold-others symbol sum rest)
          | inr (spec, f) ↦
              let held = margin_of spec p.contracts in
              rw (e, f, margin_of_others)
                (rw (rate-eq spec p.contracts) (fold-others symbol (add sum held) rest)
                  ∙ laws.add_assoc sum held others)
        ]
      ]

  total_margin-eq :
      (symbol : String) (contracts : ℤ) (spec : InstrumentSpec D) (positions : Dict (Position D))
      → total_margin symbol contracts spec positions
        ≡ add
            (margin_with spec contracts (lookup symbol positions))
            (margin_of_others symbol positions)
  unfolding total_margin
  total_margin-eq symbol contracts spec positions =
      rw (symbol_margin-eq symbol contracts spec positions)
        (fold-others symbol (margin_with spec contracts (lookup symbol positions)) positions)

  check_exposure_limits-ok :
      (e : Engine D) (symbol : String) (contracts : ℤ) (spec : InstrumentSpec D)
      → check_exposure_limits e symbol contracts spec ≡ ok tt
      → (symbol_margin symbol contracts spec e.positions
          ≼ mul e.hwm.current e.cfg.max_exposure_per_symbol_pct)
        × (total_margin symbol contracts spec e.positions
            ≼ mul e.hwm.current e.cfg.max_total_exposure_pct)
  unfolding check_exposure_limits
  check_exposure_limits-ok e symbol contracts spec h = ground (
    arith,
    greater_than-eq (symbol_margin symbol contracts spec e.positions)
        (mul e.hwm.current e.cfg.max_exposure_per_symbol_pct),
    greater_than-eq (total_margin symbol contracts spec e.positions)
        (mul e.hwm.current e.cfg.max_total_exposure_pct),
  )

  module _ (env : Env) (signal : Signal D) (event : MarketEvent D) (e : Engine D)
      (p : PositionSizer D) where
    sized : InstrumentSpec D → ℤ → SizeResult D
    sized spec stop =
        calculate_with_details p e.hwm.current e.cfg.risk_per_trade_pct stop event.close
          signal.direction spec.tick_size

    -- The checks that have passed, and where the intent's fields come from.
    size_order_fields :
        (spec : InstrumentSpec D) (stop : ℤ) (intent : OrderIntent D)
        → get_instrument_spec signal.symbol ≡ some spec
        → stop_distance e.cfg spec signal event ≡ ok stop
        → size_order env signal event e p ≡ ok intent
        → let size = sized spec stop in
          (size.valid ≡ true)
          × (check_exposure_limits e signal.symbol size.contracts spec ≡ ok tt)
          × (intent.symbol ≡ signal.symbol)
          × (intent.side ≡ signal.direction)
          × (intent.entry_price ≡ event.close)
          × (intent.contracts ≡ size.contracts)
          × (intent.stop_loss ≡ size.stop_loss)
    unfolding size_order sized
    size_order_fields spec stop intent known distance h = ground arith

    size_order-spec :
        (intent : OrderIntent D)
        → size_order env signal event e p ≡ ok intent
        → (spec : InstrumentSpec D) × (get_instrument_spec signal.symbol ≡ some spec)
    unfolding size_order
    size_order-spec intent h = elim (Option-cases (get_instrument_spec {D = D} signal.symbol)) [
      | inl unknown ↦ absurd (ground arith)
      | inr found ↦ found
    ]

    size_order-stop :
        (spec : InstrumentSpec D) (intent : OrderIntent D)
        → get_instrument_spec signal.symbol ≡ some spec
        → size_order env signal event e p ≡ ok intent
        → (stop : ℤ) × (stop_distance e.cfg spec signal event ≡ ok stop)
    unfolding size_order
    size_order-stop spec intent known h =
        elim (Result-cases (stop_distance e.cfg spec signal event)) [
          | inl found ↦ found
          | inr (inl (x, refused)) ↦ absurd (ground arith)
          | inr (inr fault) ↦ absurd (ground arith)
        ]

    size_order-IsApproved :
        (intent : OrderIntent D)
        → size_order env signal event e p ≡ ok intent
        → (spec : InstrumentSpec D) × (stop : ℤ) × IsApproved signal event e spec stop intent
    unfolding sized
    size_order-IsApproved intent h =
        let (spec, known) = size_order-spec intent h in
        let (stop, distance) = size_order-stop spec intent known h in
        let (valid, limits, symbol, side, price, count, loss) =
          size_order_fields spec stop intent known distance h in
        let s =
          calculate_with_details-IsSized laws p e.hwm.current e.cfg.risk_per_trade_pct stop
            event.close signal.direction spec.tick_size valid in
        let (one, all) =
          check_exposure_limits-ok e signal.symbol (sized spec stop).contracts spec limits in
        (
          spec,
          stop,
          record {
            known = known;
            distance = distance;
            stop_pos = s.stop_pos;
            same_symbol = symbol;
            same_side = side;
            same_price = price;
            contracts_pos = rw count s.contracts_pos;
            stops = rw loss s.stops;
            symbol_exposure = rw count (
                rw (symbol_margin-eq signal.symbol (sized spec stop).contracts spec e.positions) at
                  one);
            total_exposure = rw count (
                rw (total_margin-eq signal.symbol (sized spec stop).contracts spec e.positions) at
                  all);
          },
        )

  validate_and_size-gate :
      (env : Env) (signal : Signal D) (event : MarketEvent D) (e e' : Engine D)
      (intent : OrderIntent D)
      → validate_and_size env signal event e ≡ (e', ok intent)
      → (e.safe_mode ≡ false)
        × (drawdown e.hwm ≺ e.cfg.max_global_drawdown_pct)
        × (e' ≡ (get_or_create_sizer signal.symbol e).0)
        × (((get_or_create_sizer signal.symbol e).1 >>= size_order env signal event e') ≡ ok intent)
  unfolding validate_and_size
  validate_and_size-gate env signal event e e' intent h =
      ground (arith, greater_than_or_equal-eq (drawdown e.hwm) e.cfg.max_global_drawdown_pct)

  bind-ok :
      (r : Result (PositionSizer D)) (f : PositionSizer D → Result (OrderIntent D))
      (intent : OrderIntent D)
      → (r >>= f) ≡ ok intent
      → (p : PositionSizer D) × (f p ≡ ok intent)
  bind-ok (ok p) f intent h = (p, h)
  bind-ok (err x) f intent h = cc
  bind-ok panic f intent h = cc

  -- An intent is issued only outside safe mode and below the drawdown limit, for a known symbol, with
  -- a positive stop distance, at least one contract, and the symbol, side and price asked for. Its
  -- stop loss lies at the stop distance below the price of a long signal and above that of a short
  -- one, and is zero for a flat one. The margin of the contracts with those that the symbol holds is
  -- within the limit for the symbol, and with the margins of the other positions within the limit in
  -- total. The call changes nothing but the cache of sizers.
  pub validate_and_size-IsApproved :
      (env : Env) (signal : Signal D) (event : MarketEvent D) (e e' : Engine D)
      (intent : OrderIntent D)
      → validate_and_size env signal event e ≡ (e', ok intent)
      → (e.safe_mode ≡ false)
        × (drawdown e.hwm ≺ e.cfg.max_global_drawdown_pct)
        × (e' ≡ record e { sizers = e'.sizers })
        × ((spec : InstrumentSpec D) × (stop : ℤ) × IsApproved signal event e spec stop intent)
  validate_and_size-IsApproved env signal event e e' intent h =
      let (trading, below, made, order) = validate_and_size-gate env signal event e e' intent h in
      let (m, same) = get_or_create_sizer_engine signal.symbol e in
      let new : e' ≡ record e { sizers = m } = made ∙ same in
      let (p, sized_by) = bind-ok _ (size_order env signal event e') intent order in
      let placed : size_order env signal event e p ≡ ok intent =
        rw (new, size_order-sizers env signal event e m) at sized_by in
      (
        trading,
        below,
        new ∙ ap (λ x. record e { sizers = x }) (sym (ap (λ x. x.sizers) new)),
        size_order-IsApproved env signal event e p intent placed,
      )
