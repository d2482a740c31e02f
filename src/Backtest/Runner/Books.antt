-- ===== src/Backtest/Runner/Books.antt =====
-- What a bar of the backtest of internal/backtest/runner.go books.
use quant_bot.Prelude.{
  ℕ, suc, ◌≡◌, refl, sym, ap, ◌∙◌, inl, inr, String, some, List, [], ◌∷◌, ◌++◌, append-nil,
  append_assoc, last?, last?-append, arith,
}
use mathlib.Core.List.{foldl}
use quant_bot.Decimal.{Decimal}
use quant_bot.Types.{
  Result, ok, err, panic, >>=-eq-ok, MarketEvent, Signal, OrderIntent, OrderResult, Trade,
}
use quant_bot.Risk.Engine as Risk
use quant_bot.Execution.Simulated as Simulated
use quant_bot.Execution.Simulated.{SimulatedExecutor, Ids}
use quant_bot.Strategy.Combined.{Strategy}
use quant_bot.Backtest.{EquityPoint}
use quant_bot.Backtest.Runner.{
  Runner, Outside, add_net, update_equity, book_exits, calculate, call_progress, place,
  process_signal, process_signals, record_equity, after_order,
}
use quant_bot.Backtest.Runner.Run.{trade_bar, run_bar, count_bar, calculate-eq}
use quant_bot.Backtest.Runner.Trades.{update_market_trades, place_order_trades}

module _ {ℓ} {D : Type ℓ} ⦃d : Decimal D⦄ where
  module _ {S : Type ℓ} where
    -- What stays of a runner besides the risk engine and the high water mark, and the equity.
    record IsBooked (r : Runner D S) (equity : D) (exits : List (Trade D)) (after : Runner D S × D)
        : Type ℓ where
      pub same_executor : after.0.executor ≡ r.executor
      pub same_curve : after.0.equity_curve ≡ r.equity_curve
      pub same_cfg : after.0.cfg ≡ r.cfg
      pub new_equity : after.1 ≡ foldl add_net equity exits

    update_equity-IsBooked :
        (now : ℕ) (fill : OrderResult D) (r : Runner D S) (equity : D) (trades : List (Trade D))
        (trade : Trade D)
        → r.executor.trades ≡ trades ++ (trade ∷ [])
        → IsBooked r equity (trade ∷ []) (update_equity now (r, equity) fill)
    unfolding update_equity add_net
    update_equity-IsBooked now fill r equity trades trade e =
        let newest : last? r.executor.trades ≡ some trade = rw e (last?-append trades trade) in
        record {
          same_executor = rw (newest, update_equity) refl;
          same_curve = rw (newest, update_equity) refl;
          same_cfg = rw (newest, update_equity) refl;
          new_equity = rw (newest, update_equity) refl;
        }

    -- The exits of a bar are booked at their net profit.
    book_exits-IsBooked :
        (outside : Outside) (event : MarketEvent D) (r : Runner D S) (equity : D)
        → let out = (Simulated.update_market outside.exit_ids event r.executor).0 in
          (exits : List (Trade D)) × (out.trades ≡ r.executor.trades ++ exits)
          × IsBooked
              (record r { executor = out })
              equity
              exits
              (book_exits outside event (r, equity))
    unfolding book_exits
    book_exits-IsBooked outside event r equity =
        let out = (Simulated.update_market outside.exit_ids event r.executor).0 in
        elim (update_market_trades outside.exit_ids event r.executor) [
          | inl (same, nothing) ↦ (
            [],
            same ∙ sym (append-nil r.executor.trades),
            rw nothing (record {
              same_executor = refl;
              same_curve = refl;
              same_cfg = refl;
              new_equity = refl;
            }),
          )
          | inr (trade, fill, appended, one) ↦ (
            trade ∷ [],
            appended,
            rw one (
                update_equity-IsBooked outside.now fill (record r { executor = out }) equity
                  r.executor.trades trade appended),
          )
        ]

    -- What the signals of a bar leave of a runner, with the trades that their orders close.
    record IsTraded (r r' : Runner D S) (closes : List (Trade D)) : Type ℓ where
      pub appended : r'.executor.trades ≡ r.executor.trades ++ closes
      pub same_curve : r'.equity_curve ≡ r.equity_curve
      pub same_cfg : r'.cfg ≡ r.cfg

    place-IsTraded :
        (ids : Ids) (text : String) (signal : Signal D) (r : Runner D S)
        (intent : Result (OrderIntent D)) (r' : Runner D S × String)
        → place ids text signal r intent ≡ ok r'
        → (closes : List (Trade D)) × IsTraded r r'.0 closes
    unfolding place
    place-IsTraded ids text signal r panic r' h = absurd (ground (arith, h))
    place-IsTraded ids text signal r (err e) r' h =
        let is : r' ≡ (r, text) = cc h in
        (
          [],
          rw is (record {
            appended = sym (append-nil r.executor.trades);
            same_curve = refl;
            same_cfg = refl;
          }),
        )
    place-IsTraded ids text signal r (ok intent) r' h =
        let placed = Simulated.place_order ids intent r.executor in
        let (text', written, h') = >>=-eq-ok (after_order text signal placed.1) _ h in
        let (closes, appended) = place_order_trades ids intent r.executor in
        let is : r' ≡ (record r { executor = placed.0 }, text') = cc h' in
        (closes, rw is (record { appended = appended; same_curve = refl; same_cfg = refl }))

    process_signal-IsTraded :
        (env : Risk.Env) (ids : Ids) (event : MarketEvent D) (signal : Signal D)
        (r r' : Runner D S × String)
        → process_signal env ids event signal r ≡ ok r'
        → (closes : List (Trade D)) × IsTraded r.0 r'.0 closes
    unfolding process_signal
    process_signal-IsTraded env ids event signal r r' h =
        let (engine, intent) = Risk.validate_and_size env signal event r.0.risk_engine in
        let (closes, t) =
          place-IsTraded ids r.1 signal (record r.0 { risk_engine = engine }) intent r' h in
        (closes, record { appended = t.appended; same_curve = t.same_curve; same_cfg = t.same_cfg })

    process_signals-IsTraded :
        (signals : List (Signal D)) (k : ℕ) (outside : Outside) (event : MarketEvent D)
        (r r' : Runner D S × String)
        → process_signals k outside event signals r ≡ ok r'
        → (closes : List (Trade D)) × IsTraded r.0 r'.0 closes
    unfolding process_signals
    process_signals-IsTraded [] k outside event r r' h =
        let same : r' ≡ r = cc h in
        (
          [],
          rw same (record {
            appended = sym (append-nil r.0.executor.trades);
            same_curve = refl;
            same_cfg = refl;
          }),
        )
    process_signals-IsTraded (signal ∷ signals) k outside event r r' h =
        let (r1, one, others) =
          >>=-eq-ok (process_signal (outside.risk_env k) (outside.order_ids k) event signal r) _
            h in
        let (closes, t) =
          process_signal-IsTraded (outside.risk_env k) (outside.order_ids k) event signal r r1
            one in
        let (closes', t') = process_signals-IsTraded signals (suc k) outside event r1 r' others in
        (
          closes ++ closes',
          record {
            appended =
                t'.appended
                ∙ ap (λ ts. ts ++ closes') t.appended
                ∙ append_assoc r.0.executor.trades closes closes';
            same_curve = t'.same_curve ∙ t.same_curve;
            same_cfg = t'.same_cfg ∙ t.same_cfg;
          },
        )

    calculate_kept :
        (event event' : MarketEvent D) (r r' : Runner D S)
        → calculate event (count_bar r) ≡ ok (r', event')
        → (r'.executor ≡ r.executor) × (r'.equity_curve ≡ r.equity_curve) × (r'.cfg ≡ r.cfg)
    unfolding count_bar
    calculate_kept event event' r r' h =
        let (c, same) = calculate-eq event event' (count_bar r) r' h in
        (ap (λ x. x.executor) same, ap (λ x. x.equity_curve) same, ap (λ x. x.cfg) same)

    call_progress_kept :
        (event : MarketEvent D) (text : String) (r : Runner D S)
        → ((call_progress event text r).executor ≡ r.executor)
          × ((call_progress event text r).equity_curve ≡ r.equity_curve)
          × ((call_progress event text r).cfg ≡ r.cfg)
    unfolding call_progress
    call_progress_kept event text r = ground arith

    -- The executor once the bar has taken positions out.
    abbrev pub after_exits : Outside → MarketEvent D → Runner D S → SimulatedExecutor D
    after_exits outside event r = (Simulated.update_market outside.exit_ids event r.executor).0

    -- The books of a bar, which the executor sees with its indicators: the trades that the levels close and those that the orders close, of which
    -- the equity takes the first; the curve gets one point, with the new equity.
    pub record IsBar (outside : Outside) (event : MarketEvent D) (before after : Runner D S × D)
        : Type ℓ where
      pub counted : Runner D S
      pub event' : MarketEvent D
      pub calculated : calculate event (count_bar before.0) ≡ ok (counted, event')
      pub exits : List (Trade D)
      pub closes : List (Trade D)
      pub by_levels :
          (after_exits outside event' before.0).trades ≡ before.0.executor.trades ++ exits
      pub by_orders :
          after.0.executor.trades ≡ (after_exits outside event' before.0).trades ++ closes
      pub booked : after.1 ≡ foldl add_net before.1 exits
      pub point : EquityPoint D
      pub recorded : after.0.equity_curve ≡ before.0.equity_curve ++ (point ∷ [])
      pub point_equity : point.equity ≡ after.1
      pub same_cfg : after.0.cfg ≡ before.0.cfg

    record_equity_kept :
        (timestamp : ℕ) (equity : D) (r : Runner D S)
        → (point : EquityPoint D) × ((record_equity timestamp equity r).equity_curve
            ≡ r.equity_curve ++ (point ∷ []))
          × (point.equity ≡ equity)
          × ((record_equity timestamp equity r).executor ≡ r.executor)
          × ((record_equity timestamp equity r).cfg ≡ r.cfg)
    unfolding record_equity
    record_equity_kept timestamp equity r = (_, refl, refl, refl, refl)

    -- What the trading of a bar leaves, with the trades that its orders close.
    record IsTradedBar (before after : Runner D S × D) : Type ℓ where
      pub closes : List (Trade D)
      pub appended : after.0.executor.trades ≡ before.0.executor.trades ++ closes
      pub same_equity : after.1 ≡ before.1
      pub point : EquityPoint D
      pub recorded : after.0.equity_curve ≡ before.0.equity_curve ++ (point ∷ [])
      pub point_equity : point.equity ≡ before.1
      pub same_cfg : after.0.cfg ≡ before.0.cfg

    IsTraded-record :
        (event : MarketEvent D) (text : String) (equity : D) (r done : Runner D S)
        (closes : List (Trade D))
        → IsTraded r done closes
        → IsTradedBar
            (r, equity)
            (call_progress event text (record_equity event.timestamp equity done), equity)
    IsTraded-record event text equity r done closes t =
        let (point, recorded, equal, executor, cfg) =
          record_equity_kept event.timestamp equity done in
        let (executor', curve', cfg') =
          call_progress_kept event text (record_equity event.timestamp equity done) in
        record {
          closes = closes;
          appended = ap (λ e. e.trades) (executor' ∙ executor) ∙ t.appended;
          same_equity = refl;
          point = point;
          recorded = curve' ∙ recorded ∙ ap (λ c. c ++ (point ∷ [])) t.same_curve;
          point_equity = equal;
          same_cfg = cfg' ∙ cfg ∙ t.same_cfg;
        }

    module _ (strategy : Strategy D S) where
      trade_bar-IsTradedBar :
          (outside : Outside) (event : MarketEvent D) (s s' : Runner D S × D)
          → trade_bar strategy outside event s ≡ ok s'
          → IsTradedBar s s'
      unfolding trade_bar
      trade_bar-IsTradedBar outside event (r, equity) s' h =
          let (answer, answered, h1) =
            >>=-eq-ok (strategy.on_event outside.looks event r.strategy) _ h in
          let asked = record r { strategy = answer.0 } in
          let (done, traded, h2) =
            >>=-eq-ok (process_signals 0 outside event answer.1 (asked, "")) _ h1 in
          let (closes, t) =
            process_signals-IsTraded answer.1 0 outside event (asked, "") done traded in
          let is : s'
              ≡ (call_progress event done.1 (record_equity event.timestamp equity done.0), equity) =
            cc h2 in
          rw is (
            IsTraded-record event done.1 equity r done.0 closes
              (record { appended = t.appended; same_curve = t.same_curve; same_cfg = t.same_cfg }))

      -- A bar that goes through appends the trades that its levels close and then those that its
      -- orders close. The equity that it goes on with, which it records in the curve, takes the net
      -- profits of the first but not of the second.
      pub run_bar-IsBar :
          (outside : Outside) (event : MarketEvent D) (r r' : Runner D S) (equity equity' : D)
          → run_bar strategy outside event (r, equity) ≡ ok (r', equity')
          → IsBar outside event (r, equity) (r', equity')
      unfolding run_bar
      run_bar-IsBar outside event r r' equity equity' h =
          let ((r1, event'), found, traded) = >>=-eq-ok (calculate event (count_bar r)) _ h in
          let (same, curve, cfg) = calculate_kept event event' r r1 found in
          let (exits, by_levels, b) = book_exits-IsBooked outside event' r1 equity in
          let t =
            trade_bar-IsTradedBar outside event' (book_exits outside event' (r1, equity))
              (r', equity') traded in
          let out = (Simulated.update_market outside.exit_ids event' r1.executor).0 in
          let same_out : out ≡ after_exits outside event' r =
            ap (λ e. (Simulated.update_market outside.exit_ids event' e).0) same in
          record {
            counted = r1;
            event' = event';
            calculated = found;
            exits = exits;
            closes = t.closes;
            by_levels =
                ap (λ e. e.trades) (sym same_out) ∙ by_levels ∙ ap (λ e. e.trades ++ exits) same;
            by_orders = t.appended ∙ ap (λ e. e.trades ++ t.closes) (b.same_executor ∙ same_out);
            booked = t.same_equity ∙ b.new_equity;
            point = t.point;
            recorded = t.recorded ∙ ap (λ c. c ++ (t.point ∷ [])) (b.same_curve ∙ curve);
            point_equity = t.point_equity ∙ sym t.same_equity;
            same_cfg = t.same_cfg ∙ b.same_cfg ∙ cfg;
          }
