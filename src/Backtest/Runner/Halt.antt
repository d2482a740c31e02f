-- ===== src/Backtest/Runner/Halt.antt =====
-- The backtest of internal/backtest/runner.go once the kill switch of the risk engine is active.
use quant_bot.Prelude.{
  ℕ, suc, ◌≡◌, refl, ◌∙◌, ◌⊎◌, inl, inr, String, true, Bool-cases, none, some, Option-cases, List,
  [], ◌∷◌, arith, last?, foldl_inv, str_eq,
}
use quant_bot.Prelude.Int.{pos, ltb_ℤ}
use quant_bot.Prelude.Dict.{Dict, lookup, insert, lookup-erase}
use quant_bot.Decimal.{Decimal}
use quant_bot.Types.{
  ok, err, >>=-eq-ok, Result-cases, Error, context_done, kill_switch_active, MarketEvent, Signal,
  OrderResult, Position,
}
use quant_bot.Risk.Engine as Risk
use quant_bot.Risk.Engine.Total.{update_equity_safe}
use quant_bot.Execution.Simulated as Simulated
use quant_bot.Execution.Simulated.{SimulatedExecutor, Ids}
use quant_bot.Strategy.Combined.{Strategy}
use quant_bot.Backtest.{Results}
use quant_bot.Backtest.Runner.{
  Runner, Outside, Arrival, cancelled, closed, bar, update_equity, book_exits, calculate,
  call_progress, place, process_signal, process_signals, record_equity,
}
use quant_bot.Backtest.Runner.Run.{
  trade_bar, run_bar, count_bar, calculate-eq, run_from, conclude, conclude-eq, When-cases, time_of,
}

module _ {ℓ} {D : Type ℓ} ⦃d : Decimal D⦄ where
  open d use {add}

  -- No order has been placed between two states of the executor, and no position has been opened or
  -- changed: a symbol has the position that it had, or none.
  pub record IsWoundDown (s s' : SimulatedExecutor D) : Type ℓ where
    pub no_orders : s'.used_order_ids ≡ s.used_order_ids
    pub no_entries :
        (symbol : String)
        → (lookup symbol s'.positions ≡ none)
          ⊎ (lookup symbol s'.positions ≡ lookup symbol s.positions)

  IsWoundDown-refl : (s : SimulatedExecutor D) → IsWoundDown s s
  IsWoundDown-refl s = record { no_orders = refl; no_entries = λ symbol. inr refl }

  IsWoundDown-trans :
      (s t u : SimulatedExecutor D) → IsWoundDown s t → IsWoundDown t u → IsWoundDown s u
  IsWoundDown-trans s t u a b = record {
    no_orders = b.no_orders ∙ a.no_orders;
    no_entries = λ symbol. elim (b.no_entries symbol) [
      | inl e ↦ inl e
      | inr e ↦ elim (a.no_entries symbol) [ inl f ↦ inl (e ∙ f) | inr f ↦ inr (e ∙ f) ]
    ];
  }

  close_position-IsWoundDown :
      (ids : Ids) (p : Position D) (level : D) (reason : String) (s : SimulatedExecutor D)
      → IsWoundDown s (Simulated.close_position ids p level reason s).0
  unfolding Simulated.close_position
  close_position-IsWoundDown ids p level reason s = record {
    no_orders = refl;
    no_entries = λ symbol. elim (Bool-cases (str_eq p.symbol symbol)) [
      | inl e ↦ inl (rw (lookup-erase, e) refl)
      | inr e ↦ inr (rw (lookup-erase, e) refl)
    ];
  }

  check_exits-IsWoundDown :
      (ids : Ids) (event : MarketEvent D) (p : Position D) (s : SimulatedExecutor D)
      → IsWoundDown s (Simulated.check_exits ids event p s).0
  unfolding Simulated.check_exits
  check_exits-IsWoundDown ids event p s = elim (Option-cases (Simulated.exit_level event p)) [
    | inl e ↦ rw (e, Simulated.check_exits) (IsWoundDown-refl s)
    | inr ((level, reason), e) ↦
        rw (e, Simulated.check_exits) (close_position-IsWoundDown ids p level reason s)
  ]

  IsWoundDown-priced :
      (now : ℕ) (s s' : SimulatedExecutor D) (prices : Dict D)
      → IsWoundDown (record s { current_time = now; current_price = prices }) s'
      → IsWoundDown s s'
  IsWoundDown-priced now s s' prices w = record {
    no_orders = w.no_orders;
    no_entries = w.no_entries;
  }

  update_market-IsWoundDown :
      (ids : Ids) (event : MarketEvent D) (s : SimulatedExecutor D)
      → IsWoundDown s (Simulated.update_market ids event s).0
  unfolding Simulated.update_market
  update_market-IsWoundDown ids event s =
      let prices = insert event.symbol event.close s.current_price in
      let s' = record s { current_time = event.timestamp; current_price = prices } in
      elim (Option-cases (lookup event.symbol s.positions)) [
        | inl e ↦
            rw (e, Simulated.update_market)
              (IsWoundDown-priced event.timestamp s s' prices (IsWoundDown-refl s'))
        | inr (p, e) ↦ elim (Bool-cases (ltb_ℤ (pos 0) p.contracts)) [
          | inr f ↦
              rw (e, f, Simulated.update_market)
                (IsWoundDown-priced event.timestamp s s' prices (IsWoundDown-refl s'))
          | inl f ↦
              rw (e, f, Simulated.update_market)
                (IsWoundDown-priced event.timestamp s (Simulated.check_exits ids event p s').0
                  prices (check_exits-IsWoundDown ids event p s'))
        ]
      ]

  validate_and_size_safe :
      (env : Risk.Env) (signal : Signal D) (event : MarketEvent D) (e : Risk.Engine D)
      → e.safe_mode ≡ true
      → (reason : Error) × (Risk.validate_and_size env signal event e ≡ (e, err reason))
  unfolding Risk.validate_and_size
  validate_and_size_safe env signal event e safe = elim (Bool-cases env.context_is_done) [
    | inl f ↦ (context_done, rw f refl)
    | inr f ↦ (kill_switch_active, rw (f, safe) refl)
  ]

  module _ {S : Type ℓ} where
    -- The kill switch is active and the executor has only been wound down from the state `s`.
    record IsHalted (s : SimulatedExecutor D) (r : Runner D S) : Type ℓ where
      pub safe : r.risk_engine.safe_mode ≡ true
      pub wound_down : IsWoundDown s r.executor

    update_equity-IsHalted :
        (s : SimulatedExecutor D) (now : ℕ) (r : Runner D S × D) (fill : OrderResult D)
        → IsHalted s r.0
        → IsHalted s (update_equity now r fill).0
    unfolding update_equity
    update_equity-IsHalted s now (r, equity) fill h =
        elim (Option-cases (last? r.executor.trades)) [
          | inl e ↦ rw (e, update_equity) h
          | inr (trade, e) ↦
              rw (e, update_equity)
                (record {
                  safe = update_equity_safe now (add equity trade.net_pl) r.risk_engine h.safe;
                  wound_down = h.wound_down;
                })
        ]

    book_exits-IsHalted :
        (s : SimulatedExecutor D) (outside : Outside) (event : MarketEvent D) (r : Runner D S × D)
        → IsHalted s r.0
        → IsHalted s (book_exits outside event r).0
    unfolding book_exits
    book_exits-IsHalted s outside event (r, equity) h =
        let out = Simulated.update_market outside.exit_ids event r.executor in
        let moved : IsHalted s (record r { executor = out.0 }) = record {
          safe = h.safe;
          wound_down =
              IsWoundDown-trans s r.executor out.0 h.wound_down
                (update_market-IsWoundDown outside.exit_ids event r.executor);
        } in
        foldl_inv (λ x. IsHalted s x.0) (update_equity outside.now)
          (update_equity-IsHalted s outside.now) (record r { executor = out.0 }, equity) out.1 moved

    process_signal_safe :
        (env : Risk.Env) (ids : Ids) (event : MarketEvent D) (signal : Signal D)
        (r : Runner D S × String)
        → r.0.risk_engine.safe_mode ≡ true
        → process_signal env ids event signal r ≡ ok r
    unfolding process_signal place
    process_signal_safe env ids event signal (r, text) safe =
        let (reason, refused) = validate_and_size_safe env signal event r.risk_engine safe in
        rw refused refl

    -- No signal of a bar gets through.
    process_signals_safe :
        (k : ℕ) (outside : Outside) (event : MarketEvent D) (signals : List (Signal D))
        (r : Runner D S × String)
        → r.0.risk_engine.safe_mode ≡ true
        → process_signals k outside event signals r ≡ ok r
    unfolding process_signals
    process_signals_safe k outside event [] r safe = refl
    process_signals_safe k outside event (signal ∷ signals) r safe =
        rw (process_signal_safe (outside.risk_env k) (outside.order_ids k) event signal r safe)
          (process_signals_safe (suc k) outside event signals r safe)

    IsHalted-record :
        (s : SimulatedExecutor D) (event : MarketEvent D) (text : String) (equity : D)
        (r : Runner D S)
        → IsHalted s r
        → IsHalted s (call_progress event text (record_equity event.timestamp equity r))
    unfolding call_progress record_equity
    IsHalted-record s event text equity r h = elim (Bool-cases r.has_progress) [
      | inl e ↦ rw e (record { safe = h.safe; wound_down = h.wound_down })
      | inr e ↦ rw e (record { safe = h.safe; wound_down = h.wound_down })
    ]

    calculate-IsHalted :
        (s : SimulatedExecutor D) (event event' : MarketEvent D) (r r' : Runner D S)
        → calculate event (count_bar r) ≡ ok (r', event')
        → IsHalted s r
        → IsHalted s r'
    unfolding count_bar
    calculate-IsHalted s event event' r r' e h =
        let (c, same) = calculate-eq event event' (count_bar r) r' e in
        rw same (record { safe = h.safe; wound_down = h.wound_down })

    module _ (strategy : Strategy D S) where
      trade_bar-IsHalted :
          (s : SimulatedExecutor D) (outside : Outside) (event : MarketEvent D)
          (r r' : Runner D S × D)
          → trade_bar strategy outside event r ≡ ok r'
          → IsHalted s r.0
          → IsHalted s r'.0
      unfolding trade_bar
      trade_bar-IsHalted s outside event (r, equity) r' e h =
          let (answer, answered, e1) =
            >>=-eq-ok (strategy.on_event outside.looks event r.strategy) _ e in
          let asked = record r { strategy = answer.0 } in
          let refused = process_signals_safe 0 outside event answer.1 (asked, "") h.safe in
          let kept : IsHalted s asked = record { safe = h.safe; wound_down = h.wound_down } in
          let e2 = rw refused at e1 in
          let is : r'
              ≡ (call_progress event "" (record_equity event.timestamp equity asked), equity) =
            cc e2 in
          rw is (IsHalted-record s event "" equity asked kept)

      run_bar-IsHalted :
          (s : SimulatedExecutor D) (outside : Outside) (event : MarketEvent D)
          (r r' : Runner D S × D)
          → run_bar strategy outside event r ≡ ok r'
          → IsHalted s r.0
          → IsHalted s r'.0
      unfolding run_bar
      run_bar-IsHalted s outside event (r, equity) r' e h =
          let (c, found, traded) = >>=-eq-ok (calculate event (count_bar r)) _ e in
          let booked = book_exits outside c.1 (c.0, equity) in
          trade_bar-IsHalted s outside c.1 booked r' traded (
            book_exits-IsHalted s outside c.1 (c.0, equity)
              (calculate-IsHalted s event c.1 r c.0 found h))

      run_from-IsHalted :
          (s : SimulatedExecutor D) (arrivals : List (Arrival D)) (r : Runner D S × D)
          (r' : Runner D S) (results : Results D)
          → run_from strategy arrivals r ≡ some (ok (r', results))
          → IsHalted s r.0
          → IsHalted s r'
      unfolding run_from
      run_from-IsHalted s [] r r' results e h = absurd (ground (arith, e))
      run_from-IsHalted s (cancelled ∷ arrivals) r r' results e h = absurd (ground (arith, e))
      run_from-IsHalted s (closed ∷ arrivals) r r' results e h =
          rw (conclude-eq r.0 r' results (cc e)).0 h
      run_from-IsHalted s (bar outside event ∷ arrivals) r r' results e h =
          elim (When-cases (time_of r.0.cfg event)) [
            | inl t ↦ run_from-IsHalted s arrivals r r' results (rw (t, run_from) at e) h
            | inr (inr t) ↦
                let finished : some (conclude r.0) ≡ some (ok (r', results)) =
                  rw (t, run_from) at e in
                rw (conclude-eq r.0 r' results (cc finished)).0 h
            | inr (inl t) ↦ elim (Result-cases (run_bar strategy outside event r)) [
              | inl (r1, f) ↦
                  run_from-IsHalted s arrivals r1 r' results (rw (t, f, run_from) at e)
                    (run_bar-IsHalted s outside event r r1 f h)
              | inr (inl (reason, f)) ↦ absurd (cc (rw (t, f, run_from) at e))
              | inr (inr f) ↦ absurd (cc (rw (t, f, run_from) at e))
            ]
          ]

      -- Once the kill switch is active, a backtest uses no order id and opens or changes no position up
      -- to its end, whatever the strategy signals: at the end a symbol has the position that it had
      -- or none, and the kill switch is still active.
      pub run_from_halted :
          (arrivals : List (Arrival D)) (r r' : Runner D S) (equity : D) (results : Results D)
          → r.risk_engine.safe_mode ≡ true
          → run_from strategy arrivals (r, equity) ≡ some (ok (r', results))
          → IsWoundDown r.executor r'.executor × (r'.risk_engine.safe_mode ≡ true)
      run_from_halted arrivals r r' equity results safe e =
          let halted =
            run_from-IsHalted r.executor arrivals (r, equity) r' results e
              (record { safe = safe; wound_down = IsWoundDown-refl r.executor }) in
          (halted.wound_down, halted.safe)
