-- ===== src/Backtest/Runner/Total.antt =====
-- A backtest of internal/backtest/runner.go comes to its end.
use quant_bot.Prelude.{
  ℕ, suc, ◌≡◌, ◌≢◌, refl, inl, inr, String, false, Bool-cases, Option-cases, none, some, List, [],
  ◌∷◌, last?, foldl_inv,
}
use mathlib.Core.List.{foldl}
use quant_bot.Decimal.{Decimal, IsDecimal, ◌≺◌}
use quant_bot.Types.{Result, ok, err, panic, MarketEvent, Signal, OrderIntent, OrderResult}
use quant_bot.Indicator.StdDev.{HasRoots}
use quant_bot.Indicator.Calculator as Calculator
use quant_bot.Indicator.Calculator.{Calculator, CalculatorConfig, new_calculator}
use quant_bot.Risk.Engine as Risk
use quant_bot.Risk.Engine.Total.{
  validate_and_size-ne-panic, validate_and_size-cfg, update_equity-cfg,
}
use quant_bot.Execution.Simulated as Simulated
use quant_bot.Execution.Simulated.{SimulatedExecutor, Ids}
use quant_bot.Execution.Simulated.Orders.{place_order-Outcome}
use quant_bot.Strategy.Combined.{Strategy, Looks}
use quant_bot.Backtest.{Results}
use quant_bot.Backtest.Metrics.{next_drawdown}
use quant_bot.Backtest.Runner.{
  Runner, Outside, Arrival, closed, bar, update_equity, book_exits, calculate, call_progress, place,
  order_text, after_order, process_signal, process_signals, record_equity,
}
use quant_bot.Backtest.Runner.Run.{
  trade_bar, run_bar, count_bar, run_from, run_symbol, conclude, calculate_results, results_with,
  time_of, When-cases,
}
use quant_bot.Backtest.Runner.Finish.{worst_drawdown-ok}

-- The bars of a feed, which is then closed.
abbrev pub feed_of {ℓ} :
    {D : Type ℓ} → List (Outside × MarketEvent D) → List (Arrival D) → List (Arrival D)
feed_of [] later = closed ∷ later
feed_of ((outside, event) ∷ bars) later = bar outside event ∷ feed_of bars later

module _ {ℓ} {D : Type ℓ} ⦃d : Decimal D⦄ where
  open d use {zero_dec, is_zero, add}

  place_order-ne-panic :
      (ids : Ids) (order : OrderIntent D) (s : SimulatedExecutor D)
      → (Simulated.place_order ids order s).1 ≢ panic
  place_order-ne-panic ids order s h =
      let outcome = rw h at (place_order-Outcome ids order s) in outcome.0

  after_order_total :
      (text : String) (signal : Signal D) (result : Result (OrderResult D))
      → result ≢ panic
      → (text' : String) × (after_order text signal result ≡ ok text')
  unfolding after_order
  after_order_total text signal (ok result) h =
      (order_text text signal.direction result.status, refl)
  after_order_total text signal (err reason) h = (text, refl)
  after_order_total text signal panic h = absurd (h refl)

  module _ {S : Type ℓ} where
    -- The initial equity is positive, the stop multiple of the risk engine is not zero, and the
    -- calculator, where there is one, is new, with any periods.
    pub record IsStart (r : Runner D S) : Type ℓ where
      pub equity_pos : zero_dec ≺ r.cfg.initial_equity
      pub stop_ne_zero : is_zero r.risk_engine.cfg.stop_loss_atr_multiple ≡ false
      pub starts :
          (c : Calculator D)
          → r.calculator ≡ some c
          → (cfg : CalculatorConfig) × (c ≡ new_calculator cfg)

    -- The same on the way, where the calculator has taken some bars.
    record IsReady (r : Runner D S) : Type ℓ where
      equity_pos : zero_dec ≺ r.cfg.initial_equity
      stop_ne_zero : is_zero r.risk_engine.cfg.stop_loss_atr_multiple ≡ false
      calculates : (c : Calculator D) → r.calculator ≡ some c → Calculator.IsTotal c

    -- The strategy answers every bar.
    abbrev pub IsTotal : Strategy D S → Type ℓ
    IsTotal strategy =
        (looks : Looks) (event : MarketEvent D) (s : S)
        → (answer : S × List (Signal D)) × (strategy.on_event looks event s ≡ ok answer)

    update_equity-IsReady :
        (now : ℕ) (r : Runner D S × D) (fill : OrderResult D)
        → IsReady r.0
        → IsReady (update_equity now r fill).0
    unfolding update_equity
    update_equity-IsReady now (r, equity) fill h = elim (Option-cases (last? r.executor.trades)) [
      | inl e ↦ rw (e, update_equity) h
      | inr (trade, e) ↦
          rw (e, update_equity)
            (record {
              equity_pos = h.equity_pos;
              stop_ne_zero =
                  rw (update_equity-cfg now (add equity trade.net_pl) r.risk_engine) h.stop_ne_zero;
              calculates = h.calculates;
            })
    ]

    book_exits-IsReady :
        (outside : Outside) (event : MarketEvent D) (r : Runner D S × D)
        → IsReady r.0
        → IsReady (book_exits outside event r).0
    unfolding book_exits
    book_exits-IsReady outside event (r, equity) h =
        let out = Simulated.update_market outside.exit_ids event r.executor in
        foldl_inv (λ x. IsReady x.0) (update_equity outside.now) (update_equity-IsReady outside.now)
          (record r { executor = out.0 }, equity) out.1
          (record {
            equity_pos = h.equity_pos;
            stop_ne_zero = h.stop_ne_zero;
            calculates = h.calculates;
          })

    calculate-none :
        (event : MarketEvent D) (r : Runner D S)
        → r.calculator ≡ none
        → calculate event r ≡ ok (r, event)
    unfolding calculate
    calculate-none event r e = simp (e, calculate)

    calculate_total :
        (event : MarketEvent D) (r : Runner D S)
        → IsReady r
        → (r' : Runner D S × MarketEvent D) × (calculate event (count_bar r) ≡ ok r') × IsReady r'.0
    unfolding calculate count_bar
    calculate_total event r h = elim (Option-cases r.calculator) [
      | inl e ↦
          let counted = count_bar r in
          let kept : IsReady counted = record {
            equity_pos = h.equity_pos;
            stop_ne_zero = h.stop_ne_zero;
            calculates = h.calculates;
          } in
          ((counted, event), calculate-none event counted e, kept)
      | inr (c, e) ↦
          let ((c', event'), done, total) = Calculator.IsTotal-on_bar event c (h.calculates c e) in
          let moved = record (count_bar r) { calculator = some c' } in
          let kept : IsReady moved = record {
            equity_pos = h.equity_pos;
            stop_ne_zero = h.stop_ne_zero;
            calculates = λ c1 f. let same : c1 ≡ c' = cc f in rw same total;
          } in
          ((moved, event'), rw (e, done, calculate) refl, kept)
    ]

    record_equity-IsReady :
        (event : MarketEvent D) (text : String) (equity : D) (r : Runner D S)
        → IsReady r
        → IsReady (call_progress event text (record_equity event.timestamp equity r))
    unfolding call_progress record_equity
    record_equity-IsReady event text equity r h = elim (Bool-cases r.has_progress) [
      | inl e ↦ rw e (record {
        equity_pos = h.equity_pos;
        stop_ne_zero = h.stop_ne_zero;
        calculates = h.calculates;
      })
      | inr e ↦ rw e (record {
        equity_pos = h.equity_pos;
        stop_ne_zero = h.stop_ne_zero;
        calculates = h.calculates;
      })
    ]

    place_total :
        (ids : Ids) (text : String) (signal : Signal D) (r : Runner D S)
        (intent : Result (OrderIntent D))
        → intent ≢ panic
        → IsReady r
        → (r' : Runner D S × String) × (place ids text signal r intent ≡ ok r') × IsReady r'.0
    unfolding place
    place_total ids text signal r panic n h = absurd (n refl)
    place_total ids text signal r (err reason) n h = ((r, text), refl, h)
    place_total ids text signal r (ok intent) n h =
        let placed = Simulated.place_order ids intent r.executor in
        let (text', told) =
          after_order_total text signal placed.1 (place_order-ne-panic ids intent r.executor) in
        (
          (record r { executor = placed.0 }, text'),
          rw told refl,
          record {
            equity_pos = h.equity_pos;
            stop_ne_zero = h.stop_ne_zero;
            calculates = h.calculates;
          },
        )

    validate_and_size-IsReady :
        (env : Risk.Env) (signal : Signal D) (event : MarketEvent D) (r : Runner D S)
        → IsReady r
        → IsReady
            (record r { risk_engine = (Risk.validate_and_size env signal event r.risk_engine).0 })
    validate_and_size-IsReady env signal event r h = record {
      equity_pos = h.equity_pos;
      stop_ne_zero = rw (validate_and_size-cfg env signal event r.risk_engine) h.stop_ne_zero;
      calculates = h.calculates;
    }

    module _ (laws : IsDecimal D) where
      process_signal_total :
          (env : Risk.Env) (ids : Ids) (event : MarketEvent D) (signal : Signal D)
          (r : Runner D S × String)
          → IsReady r.0
          → (r' : Runner D S × String) × (process_signal env ids event signal r ≡ ok r')
            × IsReady r'.0
      unfolding process_signal
      process_signal_total env ids event signal (r, text) h =
          let (engine, intent) = Risk.validate_and_size env signal event r.risk_engine in
          place_total ids text signal (record r { risk_engine = engine }) intent
            (validate_and_size-ne-panic laws env signal event r.risk_engine h.stop_ne_zero)
            (validate_and_size-IsReady env signal event r h)

      process_signals_total :
          (k : ℕ) (outside : Outside) (event : MarketEvent D) (signals : List (Signal D))
          (r : Runner D S × String)
          → IsReady r.0
          → (r' : Runner D S × String) × (process_signals k outside event signals r ≡ ok r')
            × IsReady r'.0
      unfolding process_signals
      process_signals_total k outside event [] r h = (r, refl, h)
      process_signals_total k outside event (signal ∷ signals) r h =
          let (r1, one, h1) =
            process_signal_total (outside.risk_env k) (outside.order_ids k) event signal r h in
          let (r2, others, h2) = process_signals_total (suc k) outside event signals r1 h1 in
          (r2, rw (one, others) refl, h2)

      conclude_total :
          (r : Runner D S) → IsReady r → (results : Results D) × (conclude r ≡ ok (r, results))
      unfolding conclude calculate_results
      conclude_total r h =
          let worst =
            worst_drawdown-ok laws r.equity_curve r.cfg.initial_equity zero_dec h.equity_pos in
          (
            results_with (foldl next_drawdown (r.cfg.initial_equity, zero_dec) r.equity_curve).1 r,
            rw worst refl,
          )

      module _ (strategy : Strategy D S) (answers : IsTotal strategy) where
        trade_bar_total :
            (outside : Outside) (event : MarketEvent D) (r : Runner D S × D)
            → IsReady r.0
            → (r' : Runner D S × D) × (trade_bar strategy outside event r ≡ ok r') × IsReady r'.0
        unfolding trade_bar
        trade_bar_total outside event (r, equity) h =
            let (answer, answered) = answers outside.looks event r.strategy in
            let asked = record r { strategy = answer.0 } in
            let (done, traded, h1) =
              process_signals_total 0 outside event answer.1 (asked, "")
                (record {
                  equity_pos = h.equity_pos;
                  stop_ne_zero = h.stop_ne_zero;
                  calculates = h.calculates;
                }) in
            (
              (call_progress event done.1 (record_equity event.timestamp equity done.0), equity),
              rw (answered, traded) refl,
              record_equity-IsReady event done.1 equity done.0 h1,
            )

        run_bar_total :
            (outside : Outside) (event : MarketEvent D) (r : Runner D S × D)
            → IsReady r.0
            → (r' : Runner D S × D) × (run_bar strategy outside event r ≡ ok r') × IsReady r'.0
        unfolding run_bar
        run_bar_total outside event (r, equity) h =
            let (c, found, counted) = calculate_total event r h in
            let booked = book_exits outside c.1 (c.0, equity) in
            let (r', traded, h') =
              trade_bar_total outside c.1 booked
                (book_exits-IsReady outside c.1 (c.0, equity) counted) in
            (r', rw (found, traded) refl, h')

        run_from_total :
            (bars : List (Outside × MarketEvent D)) (later : List (Arrival D)) (r : Runner D S × D)
            → IsReady r.0
            → (r' : Runner D S) × (results : Results D) × (run_from strategy (feed_of bars later) r
                ≡ some (ok (r', results)))
        unfolding run_from
        run_from_total [] later r h =
            let (results, e) = conclude_total r.0 h in (r.0, results, rw e refl)
        run_from_total ((outside, event) ∷ bars) later r h =
            elim (When-cases (time_of r.0.cfg event)) [
              | inl t ↦
                  let (r', results, e) = run_from_total bars later r h in
                  (r', results, rw (t, run_from) e)
              | inr (inr t) ↦
                  let (results, e) = conclude_total r.0 h in
                  (r.0, results, rw (t, e, run_from) refl)
              | inr (inl t) ↦
                  let (r1, f, h1) = run_bar_total outside event r h in
                  let (r', results, e) = run_from_total bars later r1 h1 in
                  (r', results, rw (t, f, run_from) e)
            ]

        -- Over a feed that is closed after some bars, with a strategy that answers every bar, a
        -- positive initial equity, a stop multiple that is not zero and no calculator or a new
        -- one with any periods, a backtest comes to its end and has results, where every square
        -- root of the standard deviation comes out: nothing panics, and no error ends it.
        pub run_symbol_total :
            (roots : HasRoots D) (bars : List (Outside × MarketEvent D)) (later : List (Arrival D))
            (r : Runner D S)
            → IsStart r
            → (r' : Runner D S) × (results : Results D) × (run_symbol strategy
                  (ok (feed_of bars later))
                  r
                ≡ some (ok (r', results)))
        unfolding run_symbol
        run_symbol_total roots bars later r h =
            run_from_total bars later (r, r.cfg.initial_equity)
              (record {
                equity_pos = h.equity_pos;
                stop_ne_zero = h.stop_ne_zero;
                calculates = λ c e.
                    let (cfg, new) = h.starts c e in
                    rw new (Calculator.new_calculator-IsTotal laws roots cfg);
              })
