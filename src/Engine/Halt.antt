-- ===== src/Engine/Halt.antt =====
-- The engine of internal/engine/engine.go once the kill switch is active.
use quant_bot.Prelude.{
  ℕ, suc, ◌-◌, ◌≡◌, refl, String, true, false, Bool-cases, inl, inr, Option-cases, List, [], ◌∷◌,
  foldl_inv, ltb, ◌==◌, ◌&&◌,
}
use quant_bot.Decimal.{Decimal}
use quant_bot.Types.{ok, >>=-eq-ok, Result-cases, MarketEvent, Signal}
use quant_bot.Broker.{Order}
use quant_bot.Indicator.Calculator.{on_bar}
use quant_bot.Risk.Engine as Risk
use quant_bot.Strategy.Combined.{Strategy}
use quant_bot.Risk.Engine.Total.{update_equity_safe}
use quant_bot.Engine.{
  Broker, Severity, Engine, Outside, Step, starts, receives, tick, trading_returns,
  updating_returns, stops, stop_returns, alert, process_signal, process_signals, calculated,
  process_market_event, cancel_all_orders, handle_kill_switch, update_equity, start, stop,
  stop_finishes, step, steps,
}

module _ {ℓ} {D B : Type ℓ} where
  -- A property of the broker that everything but PlaceOrder keeps.
  pub record IsKept (brk : Broker D B) (P : B → Type ℓ) : Type ℓ where
    pub subscribed : (symbol : String) (b : B) → P b → P (brk.subscribe_market_data symbol b).0
    pub unsubscribed : (symbol : String) (b : B) → P b → P (brk.unsubscribe_market_data symbol b)
    pub order_cancelled : (now : ℕ) (id : String) (b : B) → P b → P (brk.cancel_order now id b)

module _ {ℓ} {D : Type ℓ} ⦃d : Decimal D⦄ {B S : Type ℓ} where
  record IsHalted (P : B → Type ℓ) (e : Engine D B S) : Type ℓ where
    pub safe : e.risk_engine.safe_mode ≡ true
    pub kept : P e.broker

  alert-IsHalted :
      (P : B → Type ℓ) (severity : Severity) (message : String) (e : Engine D B S)
      → IsHalted P e
      → IsHalted P (alert severity message e)
  unfolding alert
  alert-IsHalted P severity message e h = elim (Bool-cases e.has_alerter) [
    | inl f ↦ rw (f, alert) (record { safe = h.safe; kept = h.kept })
    | inr f ↦ rw (f, alert) (record { safe = h.safe; kept = h.kept })
  ]

  module _ (brk : Broker D B) (P : B → Type ℓ) (k : IsKept brk P) where
    process_signal_halted :
        (now : ℕ) (env : Risk.Env) (signal : Signal D) (event : MarketEvent D) (e : Engine D B S)
        → e.risk_engine.safe_mode ≡ true
        → process_signal brk now env signal event e ≡ ok e
    unfolding process_signal
    process_signal_halted now env signal event e safe = simp (safe, process_signal)

    process_signals_halted :
        (n : ℕ) (outside : Outside) (signals : List (Signal D)) (event : MarketEvent D)
        (e : Engine D B S)
        → e.risk_engine.safe_mode ≡ true
        → process_signals brk n outside signals event e ≡ ok e
    unfolding process_signals
    process_signals_halted n outside [] event e safe = refl
    process_signals_halted n outside (signal ∷ signals) event e safe =
        rw (process_signal_halted outside.now (outside.risk_env n) signal event e safe)
          (process_signals_halted (suc n) outside signals event e safe)

    process_market_event-IsHalted :
        (strategy : Strategy D S) (outside : Outside) (event : MarketEvent D) (e e' : Engine D B S)
        → process_market_event brk strategy outside event e ≡ ok e'
        → IsHalted P e
        → IsHalted P e'
    unfolding process_market_event
    process_market_event-IsHalted strategy outside event e e' f h =
        let (c, joined, g1) = >>=-eq-ok (on_bar event e.calculator) _ f in
        let (event', ranged, g2) = >>=-eq-ok (calculated event c.0) _ g1 in
        let (answer, answered, g) =
          >>=-eq-ok (strategy.on_event outside.looks event' e.strategy) _ g2 in
        let asked = record e { last_event = event; calculator = c.0; strategy = answer.0 } in
        let refused = process_signals_halted 0 outside answer.1 event' asked h.safe in
        let is : e' ≡ asked = cc (g, refused) in rw is (record { safe = h.safe; kept = h.kept })

    cancel_all_orders-IsHalted :
        (now : ℕ) (e : Engine D B S) → IsHalted P e → IsHalted P (cancel_all_orders brk now e)
    unfolding cancel_all_orders
    cancel_all_orders-IsHalted now e h = elim (Option-cases (brk.get_open_orders e.broker)) [
      | inl f ↦ rw (f, cancel_all_orders) h
      | inr (orders, f) ↦
          rw (f, cancel_all_orders)
            (record {
              safe = h.safe;
              kept =
                  foldl_inv P (λ b (o : Order D). brk.cancel_order now o.order_id b)
                    (λ b o. k.order_cancelled now o.order_id b) e.broker orders h.kept;
            })
    ]

    update_equity-IsHalted :
        (now : ℕ) (e : Engine D B S) → IsHalted P e → IsHalted P (update_equity brk now e)
    unfolding handle_kill_switch update_equity
    update_equity-IsHalted now e h = elim (Option-cases (brk.get_account_summary now e.broker)) [
      | inl f ↦ rw (f, update_equity) h
      | inr (summary, f) ↦
          let safe = update_equity_safe now summary.net_liquidation e.risk_engine h.safe in
          let e' = record e {
            risk_engine = Risk.update_equity now summary.net_liquidation e.risk_engine;
          } in
          let is : update_equity brk now e ≡ handle_kill_switch brk now e' =
            simp (f, safe, update_equity) in
          rw is (
            cancel_all_orders-IsHalted now (alert Severity.critical "KILL SWITCH ACTIVATED" e') (
              alert-IsHalted P Severity.critical "KILL SWITCH ACTIVATED" e'
                (record { safe = safe; kept = h.kept })))
    ]

    start-IsHalted : (e : Engine D B S) → IsHalted P e → IsHalted P (start brk e).0
    unfolding start
    start-IsHalted e h =
        let sub = brk.subscribe_market_data e.symbol e.broker in
        let kept = k.subscribed e.symbol e.broker h.kept in
        let e' = record e { running = true; broker = sub.0 } in
        elim (Bool-cases e.running) [
          | inl f ↦ rw f (record { safe = h.safe; kept = h.kept })
          | inr f ↦ elim (Result-cases sub.1) [
            | inl (_, g) ↦
                rw (f, g, start)
                  (alert-IsHalted P Severity.info "Trading engine started"
                    (record e' { trading = suc e.trading; updating = suc e.updating })
                    (record { safe = h.safe; kept = kept }))
            | inr (inl (reason, g)) ↦ rw (f, g, start) (record { safe = h.safe; kept = kept })
            | inr (inr g) ↦ rw (f, g, start) (record { safe = h.safe; kept = kept })
          ]
        ]

    stop_finishes-IsHalted : (e : Engine D B S) → IsHalted P e → IsHalted P (stop_finishes brk e)
    unfolding stop_finishes
    stop_finishes-IsHalted e h =
        alert-IsHalted P Severity.info "Trading engine stopped" _
          (record { safe = h.safe; kept = k.unsubscribed e.symbol e.broker h.kept })

    step-IsHalted :
        (strategy : Strategy D S) (s : Step D) (e e' : Engine D B S)
        → step brk strategy s e ≡ ok e'
        → IsHalted P e
        → IsHalted P e'
    unfolding step stop
    step-IsHalted strategy starts e e' f h =
        let is : e' ≡ (start brk e).0 = cc f in rw is (start-IsHalted e h)
    step-IsHalted strategy (receives outside event) e e' f h = elim (Bool-cases (ltb 0 e.trading)) [
      | inl g ↦ process_market_event-IsHalted strategy outside event e e' (rw (g, step) at f) h
      | inr g ↦ let is : e' ≡ e = cc (rw (g, step) at f) in rw is h
    ]
    step-IsHalted strategy (tick now) e e' f h = elim (Bool-cases (ltb 0 e.updating)) [
      | inl g ↦
          let is : e' ≡ update_equity brk now e = cc (rw (g, step) at f) in
          rw is (update_equity-IsHalted now e h)
      | inr g ↦ let is : e' ≡ e = cc (rw (g, step) at f) in rw is h
    ]
    step-IsHalted strategy trading_returns e e' f h =
        let is : e' ≡ record e { trading = e.trading - 1 } = cc f in
        rw is (record { safe = h.safe; kept = h.kept })
    step-IsHalted strategy updating_returns e e' f h =
        let is : e' ≡ record e { updating = e.updating - 1 } = cc f in
        rw is (record { safe = h.safe; kept = h.kept })
    step-IsHalted strategy stops e e' f h = elim (Bool-cases e.running) [
      | inl g ↦ elim (Bool-cases e.done_closed) [
        | inl c ↦ absurd (cc (rw (g, c, step) at f))
        | inr c ↦
            let is : e'
                ≡ record e { running = false; done_closed = true; stopping = suc e.stopping } =
              cc (rw (g, c, step) at f) in
            rw is (record { safe = h.safe; kept = h.kept })
      ]
      | inr g ↦ let is : e' ≡ e = cc (rw (g, step) at f) in rw is h
    ]
    step-IsHalted strategy stop_returns e e' f h =
        elim (Bool-cases (ltb 0 e.stopping && e.trading == 0 && e.updating == 0)) [
          | inl g ↦
              let is : e' ≡ stop_finishes brk e = cc (rw (g, step) at f) in
              rw is (stop_finishes-IsHalted e h)
          | inr g ↦ let is : e' ≡ e = cc (rw (g, step) at f) in rw is h
        ]

    steps-IsHalted :
        (strategy : Strategy D S) (run : List (Step D)) (e e' : Engine D B S)
        → steps brk strategy run e ≡ ok e'
        → IsHalted P e
        → IsHalted P e'
    unfolding steps
    steps-IsHalted strategy [] e e' f h = let is : e' ≡ e = cc f in rw is h
    steps-IsHalted strategy (s ∷ run) e e' f h =
        let (e1, first, rest) = >>=-eq-ok (step brk strategy s e) _ f in
        steps-IsHalted strategy run e1 e' rest (step-IsHalted strategy s e e1 first h)

    -- Once the kill switch is active, no run of the engine, whatever its events, its ticks, its strategy
    -- and its calls of Start and Stop, places an order: what every operation of the broker but
    -- PlaceOrder keeps true of it is true at the end of the run, and the kill switch is still
    -- active.
    pub steps_halted :
        (strategy : Strategy D S) (run : List (Step D)) (e e' : Engine D B S)
        → e.risk_engine.safe_mode ≡ true
        → P e.broker
        → steps brk strategy run e ≡ ok e'
        → P e'.broker × (e'.risk_engine.safe_mode ≡ true)
    steps_halted strategy run e e' safe kept f =
        let halted = steps-IsHalted strategy run e e' f (record { safe = safe; kept = kept }) in
        (halted.kept, halted.safe)
