-- ===== src/Backtest/Runner/Run.antt =====
-- internal/backtest/runner.go: RunSymbol over what it receives, and the results.
use quant_bot.Prelude.{
  ℕ, suc, not, ◌&&◌, Option, none, some, Option-cases, List, [], ◌∷◌, if◌then◌else◌, length, ltb,
  ◌==◌, ◌≡◌, refl, ◌⊎◌, inl, inr,
}
use mathlib.Core.List.{foldl}
use quant_bot.Prelude.Int.{pos, ◌+ℤ◌, wrap}
use quant_bot.Decimal.{Decimal}
use quant_bot.Types.{
  Result, ok, err, panic, ◌>>=◌, >>=-eq-ok, checked_div, context_done, MarketEvent, Trade,
}
use quant_bot.Indicator.Calculator.{Calculator, on_bar}
use quant_bot.Risk.Engine as Risk
use quant_bot.Execution.Simulated as Simulated
use quant_bot.Strategy.Combined.{Strategy}
use quant_bot.Backtest.{EquityPoint, Results}
use quant_bot.Backtest.Runner.{
  Config, Runner, Outside, Arrival, cancelled, closed, bar, book_exits, calculate, call_progress,
  process_signals, record_equity,
}

-- The tallies of `calculateResults` over the trades.
pub record Tally {ℓ} (D : Type ℓ) : Type ℓ where
  pub end_equity : D
  pub winning : ℕ
  pub losing : ℕ
  pub gross_profit : D
  pub gross_loss : D

-- Where the time of a bar lies.
pub data When : Type 0 where
  early : When
  within : When
  late : When

pub When-cases : (w : When) → (w ≡ early) ⊎ (w ≡ within) ⊎ (w ≡ late)
When-cases early = inl refl
When-cases within = inr (inl refl)
When-cases late = inr (inr refl)

module _ {ℓ} {D : Type ℓ} ⦃d : Decimal D⦄ where
  open d use {zero_dec, of_int, add, sub, div, abs, greater_than, is_positive, is_negative}

  unfoldable pub add_trade : Tally D → Trade D → Tally D
  add_trade t trade =
      let t' = record t { end_equity = add t.end_equity trade.net_pl } in
      if is_positive trade.net_pl
      then record t' { winning = suc t.winning; gross_profit = add t.gross_profit trade.net_pl }
      else if is_negative trade.net_pl
      then record t' { losing = suc t.losing; gross_loss = add t.gross_loss (abs trade.net_pl) }
      else t'

  unfoldable pub no_trades : D → Tally D
  no_trades equity = record {
    end_equity = equity;
    winning = 0;
    losing = 0;
    gross_profit = zero_dec;
    gross_loss = zero_dec;
  }

  unfoldable pub tally : D → List (Trade D) → Tally D
  tally initial trades = foldl add_trade (no_trades initial) trades

  -- The loop over the equity curve. It divides by the peak whatever that is.
  unfoldable pub worst_drawdown : D → D → List (EquityPoint D) → Result D
  worst_drawdown hwm worst [] = ok worst
  worst_drawdown hwm worst (point ∷ points) =
      let peak = if greater_than point.equity hwm then point.equity else hwm in
      checked_div (sub peak point.equity) peak >>= λ dd.
      worst_drawdown peak (if greater_than dd worst then dd else worst) points

  unfoldable pub time_of : Config D → MarketEvent D → When
  time_of cfg event =
      if not (cfg.start_time == 0) && ltb event.timestamp cfg.start_time
      then early
      else if not (cfg.end_time == 0) && ltb cfg.end_time event.timestamp
      then late
      else within

  module _ {S : Type ℓ} where
    -- The results, given the worst drawdown.
    unfoldable pub results_with : D → Runner D S → Results D
    results_with worst r =
        let trades = r.executor.trades in
        let initial = r.cfg.initial_equity in
        let t = tally initial trades in
        record {
          start_equity = initial;
          end_equity = t.end_equity;
          total_return =
              if is_positive initial then div (sub t.end_equity initial) initial else zero_dec;
          max_drawdown = worst;
          total_trades = length trades;
          winning_trades = t.winning;
          losing_trades = t.losing;
          win_rate =
              if ltb 0 (length trades)
              then div (of_int (pos t.winning)) (of_int (pos (length trades)))
              else zero_dec;
          profit_factor =
              if is_positive t.gross_loss then div t.gross_profit t.gross_loss else zero_dec;
          sharpe_ratio = zero_dec;
          trades = trades;
          equity_curve = r.equity_curve;
        }

    unfoldable pub calculate_results : Runner D S → Result (Results D)
    calculate_results r = worst_drawdown r.cfg.initial_equity zero_dec r.equity_curve >>= λ worst.
        ok (results_with worst r)

    unfoldable pub conclude : Runner D S → Result (Runner D S × Results D)
    conclude r = calculate_results r >>= λ results. ok (r, results)

    -- What is returned with the results is the runner.
    pub conclude-eq :
        (r r' : Runner D S) (results : Results D)
        → conclude r ≡ ok (r', results)
        → (r' ≡ r) × (calculate_results r ≡ ok results)
    unfolding conclude
    conclude-eq r r' results h =
        let (found, calculated, same) = >>=-eq-ok (calculate_results r) _ h in
        (cc same, cc (calculated, same))

    unfoldable pub count_bar : Runner D S → Runner D S
    count_bar r = record r { bar_count = wrap (r.bar_count +ℤ pos 1) }

    -- The indicators of a bar change the calculator only.
    pub calculate-eq :
        (event event' : MarketEvent D) (r r' : Runner D S)
        → calculate event r ≡ ok (r', event')
        → (c : Option (Calculator D)) × (r' ≡ record r { calculator = c })
    unfolding calculate
    calculate-eq event event' r r' h = elim (Option-cases r.calculator) [
      | inl e ↦ (r.calculator, cc (rw (e, calculate) at h))
      | inr (c, e) ↦
          let (found, _, same) = >>=-eq-ok (on_bar event c) _ (rw (e, calculate) at h) in
          (some found.0, cc same)
    ]

    module _ (strategy : Strategy D S) where
      -- The strategy's signals, the point of the equity curve and the callback of a bar.
      unfoldable pub trade_bar : Outside → MarketEvent D → Runner D S × D → Result (Runner D S × D)
      trade_bar outside event (r, equity) =
          strategy.on_event outside.looks event r.strategy >>= λ answer.
          process_signals 0 outside event answer.1 (record r { strategy = answer.0 }, "")
          >>= λ done.
              ok (call_progress event done.1 (record_equity event.timestamp equity done.0), equity)

      -- A bar within the times, with the equity of `RunSymbol`.
      unfoldable pub run_bar : Outside → MarketEvent D → Runner D S × D → Result (Runner D S × D)
      run_bar outside event (r, equity) = calculate event (count_bar r) >>= λ (r', event').
          trade_bar outside event' (book_exits outside event' (r', equity))

      -- The loop of `RunSymbol`; `none` when it still waits for the feed.
      unfoldable pub run_from :
          List (Arrival D) → Runner D S × D → Option (Result (Runner D S × Results D))
      run_from [] s = none
      run_from (cancelled ∷ arrivals) s = some (err context_done)
      run_from (closed ∷ arrivals) s = some (conclude s.0)
      run_from (bar outside event ∷ arrivals) s = elim (time_of s.0.cfg event) [
        | early ↦ run_from arrivals s
        | late ↦ some (conclude s.0)
        | within ↦ elim (run_bar outside event s) [
          | ok s' ↦ run_from arrivals s'
          | err e ↦ some (err e)
          | panic ↦ some panic
        ]
      ]

      -- `RunSymbol`, from what the subscription to the feed gives.
      unfoldable pub run_symbol :
          Result (List (Arrival D)) → Runner D S → Option (Result (Runner D S × Results D))
      run_symbol (ok arrivals) r = run_from arrivals (r, r.cfg.initial_equity)
      run_symbol (err e) r = some (err e)
      run_symbol panic r = some panic

      unfoldable pub reset : ℕ → Runner D S → Runner D S
      reset now r = record r {
        executor = Simulated.reset r.executor;
        strategy = strategy.reset_state r.strategy;
        equity_curve = [];
        high_water = r.cfg.initial_equity;
        bar_count = pos 0;
        risk_engine = Risk.update_equity now r.cfg.initial_equity r.risk_engine;
      }
