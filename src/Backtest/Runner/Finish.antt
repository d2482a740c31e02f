-- ===== src/Backtest/Runner/Finish.antt =====
-- The results of internal/backtest/runner.go against the metrics of internal/backtest/metrics.go.
use quant_bot.Prelude.{
  ◌≡◌, refl, sym, ap, ◌∙◌, inl, inr, true, false, Bool-cases, List, [], ◌∷◌, arith, foldl_inv,
  foldl_fuse, if◌then◌else◌,
}
use mathlib.Core.List.{foldl}
use quant_bot.Decimal.{Decimal, IsDecimal, ◌≼◌, ◌≺◌}
use quant_bot.Decimal.Order.{le_refl, ne_zero_of_pos, sub_self, is_zero_iff}
use quant_bot.Types.{ok, Trade}
use quant_bot.Backtest.{EquityPoint, Results}
use quant_bot.Backtest.Metrics.{
  Metrics, new_metrics, next_drawdown, max_drawdown, max_drawdown_of, count_win, win_rate,
  add_gross, profit_factor,
}
use quant_bot.Backtest.Metrics.Bounds.{add_gross_nonneg, pos_of_ne_zero}
use quant_bot.Backtest.Runner.{Runner, add_net}
use quant_bot.Backtest.Runner.Run.{
  Tally, add_trade, no_trades, tally, worst_drawdown, results_with, calculate_results,
}

module _ {ℓ} {D : Type ℓ} ⦃d : Decimal D⦄ where
  open d use {
    zero_dec, of_int, add, sub, div, abs, less_than, greater_than, is_zero, is_positive,
    is_negative,
  }

  add_trade_end : (t : Tally D) (x : Trade D) → (add_trade t x).end_equity ≡ add_net t.end_equity x
  unfolding add_trade add_net
  add_trade_end t x = ground arith

  add_trade_winning : (t : Tally D) (x : Trade D) → (add_trade t x).winning ≡ count_win t.winning x
  unfolding add_trade count_win
  add_trade_winning t x = ground arith

  abbrev gross_of : Tally D → D × D
  gross_of t = (t.gross_profit, t.gross_loss)

  module _ (laws : IsDecimal D) where
    abs_zero : abs zero_dec ≡ zero_dec
    abs_zero = laws.abs-eq zero_dec ∙ (rw (laws.lt_irrefl zero_dec) refl)

    zero_of_signs : (a : D) → is_positive a ≡ false → is_negative a ≡ false → a ≡ zero_dec
    zero_of_signs a p n =
        laws.lt_total a zero_dec (sym (laws.is_positive-eq a) ∙ p) (sym (laws.is_negative-eq a) ∙ n)

    -- A trade that breaks even adds nothing to the losses.
    add_trade_gross :
        (t : Tally D) (x : Trade D) → gross_of (add_trade t x) ≡ add_gross (gross_of t) x
    unfolding add_trade add_gross
    add_trade_gross t x = elim (Bool-cases (is_positive x.net_pl)) [
      | inl p ↦ rw p refl
      | inr p ↦ elim (Bool-cases (is_negative x.net_pl)) [
        | inl n ↦ rw (p, n) refl
        | inr n ↦
            let none_lost : add t.gross_loss (abs x.net_pl) ≡ t.gross_loss =
              rw (zero_of_signs x.net_pl p n, abs_zero) (laws.add-zero t.gross_loss) in
            rw (p, n, none_lost) refl
      ]
    ]

    peak_pos :
        (hwm : D) (point : EquityPoint D)
        → zero_dec ≺ hwm
        → zero_dec ≺ (if greater_than point.equity hwm then point.equity else hwm)
    peak_pos hwm point h = elim (Bool-cases (greater_than point.equity hwm)) [
      | inl e ↦
          let above : hwm ≺ point.equity = sym (laws.greater_than-eq point.equity hwm) ∙ e in
          rw e (laws.lt_trans zero_dec hwm point.equity h above)
      | inr e ↦ rw e h
    ]

    pub worst_drawdown-ok :
        (points : List (EquityPoint D)) (hwm worst : D)
        → zero_dec ≺ hwm
        → worst_drawdown hwm worst points ≡ ok (foldl next_drawdown (hwm, worst) points).1
    unfolding worst_drawdown
    worst_drawdown-ok [] hwm worst h = refl
    worst_drawdown-ok (point ∷ points) hwm worst h =
        let peak = if greater_than point.equity hwm then point.equity else hwm in
        let dd = div (sub peak point.equity) peak in
        let p = peak_pos hwm point h in
        let counted : is_positive peak ≡ true = laws.is_positive-eq peak ∙ p in
        let next : next_drawdown (hwm, worst) point
            ≡ (peak, if greater_than dd worst then dd else worst) =
          unfold next_drawdown in (rw counted refl) in
        rw (ne_zero_of_pos laws peak p) (
          worst_drawdown-ok points peak (if greater_than dd worst then dd else worst) p
          ∙ ap (λ s. ok (foldl next_drawdown s points).1) (sym next))

    first_point :
        (point : EquityPoint D) (initial : D)
        → zero_dec ≺ initial
        → point.equity ≡ initial
        → next_drawdown (point.equity, zero_dec) point ≡ (initial, zero_dec)
    unfolding next_drawdown
    first_point point initial h e =
        let level : greater_than initial initial ≡ false =
          laws.greater_than-eq initial initial ∙ laws.lt_irrefl initial in
        let none_lost : div (sub initial initial) initial ≡ zero_dec =
          rw (sub_self laws initial) (laws.zero-div initial h) in
        let no_more : greater_than zero_dec zero_dec ≡ false =
          laws.greater_than-eq zero_dec zero_dec ∙ laws.lt_irrefl zero_dec in
        let counted : is_positive initial ≡ true = laws.is_positive-eq initial ∙ h in
        rw (e, level, none_lost, no_more, counted) refl

    worst-max_drawdown :
        (point : EquityPoint D) (points : List (EquityPoint D)) (initial : D)
        → zero_dec ≺ initial
        → point.equity ≡ initial
        → worst_drawdown initial zero_dec points ≡ ok (max_drawdown_of (point ∷ points))
    unfolding max_drawdown_of
    worst-max_drawdown point points initial h e =
        worst_drawdown-ok points initial zero_dec h
        ∙ ap (λ s. ok (foldl next_drawdown s points).1) (sym (first_point point initial h e))

    tally_gross :
        (initial : D) (trades : List (Trade D))
        → gross_of (tally initial trades) ≡ foldl add_gross (zero_dec, zero_dec) trades
    unfolding tally no_trades
    tally_gross initial trades =
        foldl_fuse gross_of add_trade add_gross add_trade_gross (no_trades initial) trades

    tally_winning :
        (initial : D) (trades : List (Trade D))
        → (tally initial trades).winning ≡ foldl count_win 0 trades
    unfolding tally no_trades
    tally_winning initial trades =
        foldl_fuse (λ t. t.winning) add_trade count_win add_trade_winning (no_trades initial) trades

    tally_end :
        (initial : D) (trades : List (Trade D))
        → (tally initial trades).end_equity ≡ foldl add_net initial trades
    unfolding tally no_trades
    tally_end initial trades =
        foldl_fuse (λ t. t.end_equity) add_trade add_net add_trade_end (no_trades initial) trades

    profit_factor-agrees :
        (m : Metrics D) (t : Tally D)
        → gross_of t ≡ foldl add_gross (zero_dec, zero_dec) m.trades
        → (if is_positive t.gross_loss then div t.gross_profit t.gross_loss else zero_dec)
          ≡ profit_factor m
    unfolding profit_factor
    profit_factor-agrees m t e =
        let losses : zero_dec ≼ t.gross_loss =
          rw (ap (λ s. s.1) e)
            (foldl_inv (λ s. (zero_dec ≼ s.0) × (zero_dec ≼ s.1)) add_gross (add_gross_nonneg laws)
              (zero_dec, zero_dec) m.trades (le_refl laws zero_dec, le_refl laws zero_dec)).1 in
        rw (← e) (elim (Bool-cases (is_zero t.gross_loss)) [
          | inl z ↦
              let none_lost = is_zero_iff laws t.gross_loss z in
              let flat_loss : is_positive t.gross_loss ≡ false =
                laws.is_positive-eq t.gross_loss ∙ (rw none_lost (laws.lt_irrefl zero_dec)) in
              rw (z, flat_loss) refl
          | inr z ↦
              let some_lost : is_positive t.gross_loss ≡ true =
                laws.is_positive-eq t.gross_loss ∙ pos_of_ne_zero laws t.gross_loss losses z in
              rw (z, some_lost) refl
        ])

    module _ {S : Type ℓ} where
      -- A backtest with a positive initial equity has results, and they are those of the metrics: the
      -- win rate and the profit factor of its trades, and the maximum drawdown of its equity curve
      -- behind a point with the initial equity. The end equity is the initial one with the net
      -- profits of all trades.
      pub calculate_results-metrics :
          (r : Runner D S) (start : EquityPoint D) (rate : D)
          → zero_dec ≺ r.cfg.initial_equity
          → start.equity ≡ r.cfg.initial_equity
          → (results : Results D) × (calculate_results r ≡ ok results)
            × (results.trades ≡ r.executor.trades)
            × (results.win_rate ≡ win_rate (new_metrics results rate))
            × (results.profit_factor ≡ profit_factor (new_metrics results rate))
            × (results.max_drawdown
                ≡ max_drawdown
                    (record (new_metrics results rate) { equity_curve = start ∷ r.equity_curve }))
            × (results.end_equity ≡ foldl add_net r.cfg.initial_equity r.executor.trades)
      unfolding calculate_results results_with new_metrics max_drawdown win_rate
      calculate_results-metrics r start rate h e =
          let trades = r.executor.trades in
          let initial = r.cfg.initial_equity in
          (
            results_with (max_drawdown_of (start ∷ r.equity_curve)) r,
            rw (worst-max_drawdown start r.equity_curve initial h e) refl,
            refl,
            rw (tally_winning initial trades) refl,
            profit_factor-agrees
                (new_metrics (results_with (max_drawdown_of (start ∷ r.equity_curve)) r) rate)
                (tally initial trades) (tally_gross initial trades),
            refl,
            tally_end initial trades,
          )
