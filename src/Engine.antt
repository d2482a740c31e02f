-- ===== src/Engine.antt =====
-- internal/engine/engine.go: the engine that trades with a broker. Its goroutines, the trading loop and
-- the loop of the equity updates, take their turns in any order: a run of the engine is a sequence
-- of steps, each of which takes an event or a tick whole: how the two loops interleave within one, at
-- the locks of the broker and of the risk engine, is not modelled. The counters for the metrics
-- server are left out.
pub mod Halt
pub mod Brokers
pub mod KillSwitch
use quant_bot.Prelude.{
  ℕ, suc, ◌-◌, String, Bool, true, false, ◌&&◌, ◌||◌, Option, none, some, List, [], ◌∷◌, ◌++◌,
  if◌then◌else◌, ◌==◌, ltb,
}
use quant_bot.Prelude.Int.{pos}
use mathlib.Core.List.{foldl}
use quant_bot.Decimal.{Decimal}
use quant_bot.Types.{
  Result, ok, err, panic, ◌>>=◌, Error, kill_switch_active, already_running, MarketEvent, Signal,
  OrderIntent,
}
use quant_bot.Broker.{AccountSummary, Order, OrderResult}
use quant_bot.Indicator.Calculator.{Calculator, on_bar}
use quant_bot.Indicator.Atr as Atr
use quant_bot.Risk.Engine as Risk
use quant_bot.Strategy.Combined.{Strategy, Looks}

-- What the engine asks of the `Broker` interface, at the time of the clock. The errors of a
-- cancellation, an unsubscription and the queries are only logged.
pub record Broker {ℓ} (D B : Type ℓ) : Type ℓ where
  pub subscribe_market_data : String → B → B × Result (Unit {0})
  pub unsubscribe_market_data : String → B → B
  pub get_account_summary : ℕ → B → Option (AccountSummary D)
  pub place_order : ℕ → OrderIntent D → B → B × Result OrderResult
  pub cancel_order : ℕ → String → B → B
  pub get_open_orders : B → Option (List (Order D))

-- `alerting.Severity`
pub data Severity : Type 0 where
  info : Severity
  warning : Severity
  high : Severity
  critical : Severity

pub record Alert : Type 0 where
  pub severity : Severity
  pub message : String

-- The engine with its broker of type `B` and its strategy of type `S`. `trading` and `updating` count
-- the goroutines of the two loops, `stopping` the calls of Stop that wait for them, and `alerts` are
-- those that the alerter, where there is one, has been given.
pub record Engine {ℓ} (D B S : Type ℓ) : Type ℓ where
  pub symbol : String
  pub broker : B
  pub risk_engine : Risk.Engine D
  pub strategy : S
  pub calculator : Calculator D
  pub has_alerter : Bool
  pub alerts : List Alert
  pub running : Bool
  pub last_event : MarketEvent D
  pub done_closed : Bool
  pub trading : ℕ
  pub updating : ℕ
  pub stopping : ℕ

-- What an event reads from outside: the context as the strategy sees it, the clock, and for each of
-- its signals what the validation reads.
pub record Outside : Type 0 where
  pub looks : Looks
  pub now : ℕ
  pub risk_env : ℕ → Risk.Env

-- A step of a run: a call of `Start` or `Stop`, the end of the wait of a `Stop`, an event or a tick that
-- one of the loops receives, and the return of a loop.
pub data Step {ℓ} (D : Type ℓ) : Type ℓ where
  starts : Step D
  receives : Outside → MarketEvent D → Step D
  tick : ℕ → Step D
  trading_returns : Step D
  updating_returns : Step D
  stops : Step D
  stop_returns : Step D

module _ {ℓ} {D : Type ℓ} ⦃d : Decimal D⦄ where
  -- The event for the strategy: it has the average true range, and no standard deviation.
  unfoldable pub calculated : MarketEvent D → Calculator D → Result (MarketEvent D)
  calculated event c =
      Atr.current c.atr >>= λ range. ok (record event { atr = range; std_dev = d.zero_dec })

module _ {ℓ} {D : Type ℓ} ⦃d : Decimal D⦄ {B S : Type ℓ} where
  unfoldable pub new_engine : String → B → Risk.Engine D → S → Calculator D → Bool → Engine D B S
  new_engine symbol broker risk_engine strategy calculator has_alerter = record {
    symbol = symbol;
    broker = broker;
    risk_engine = risk_engine;
    strategy = strategy;
    calculator = calculator;
    has_alerter = has_alerter;
    alerts = [];
    running = false;
    last_event = record {
      symbol = "";
      timestamp = 0;
      open_price = d.zero_dec;
      high = d.zero_dec;
      low = d.zero_dec;
      close = d.zero_dec;
      volume = pos 0;
      atr = d.zero_dec;
      std_dev = d.zero_dec;
    };
    done_closed = false;
    trading = 0;
    updating = 0;
    stopping = 0;
  }

  -- `alerter.Alert`, where there is an alerter.
  unfoldable pub alert : Severity → String → Engine D B S → Engine D B S
  alert severity message e =
      if e.has_alerter
      then record e {
        alerts = e.alerts ++ (record { severity = severity; message = message } ∷ []);
      }
      else e

  module _ (brk : Broker D B) where
    -- An order of the risk engine through the broker.
    unfoldable pub place_intent : ℕ → OrderIntent D → Engine D B S → Result (Engine D B S)
    place_intent now intent e =
        let (b, result) = brk.place_order now intent e.broker in
        let e' = record e { broker = b } in
        elim result [
          | ok _ ↦ ok (alert info "Order placed" e')
          | err _ ↦ ok (alert warning "Order rejected" e')
          | panic ↦ panic
        ]

    unfoldable pub process_intent :
        ℕ → Engine D B S → Result (OrderIntent D) → Result (Engine D B S)
    process_intent now e (ok intent) = place_intent now intent e
    process_intent now e (err _) = ok e
    process_intent now e panic = panic

    -- `processSignal`; its error is only logged.
    unfoldable pub process_signal :
        ℕ → Risk.Env → Signal D → MarketEvent D → Engine D B S → Result (Engine D B S)
    process_signal now env signal event e =
        let (engine, intent) = Risk.validate_and_size env signal event e.risk_engine in
        if e.risk_engine.safe_mode
        then ok e
        else process_intent now (record e { risk_engine = engine }) intent

    unfoldable pub process_signals :
        ℕ → Outside → List (Signal D) → MarketEvent D → Engine D B S → Result (Engine D B S)
    process_signals k outside [] event e = ok e
    process_signals k outside (signal ∷ signals) event e =
        process_signal outside.now (outside.risk_env k) signal event e
        >>= process_signals (suc k) outside signals event

    unfoldable pub process_market_event :
        Strategy D S → Outside → MarketEvent D → Engine D B S → Result (Engine D B S)
    process_market_event strategy outside event e = on_bar event e.calculator >>= λ (c, _).
        calculated event c >>= λ event'.
        strategy.on_event outside.looks event' e.strategy >>= λ answer.
        process_signals 0 outside answer.1 event'
          (record e { last_event = event; calculator = c; strategy = answer.0 })

    unfoldable pub cancel_all_orders : ℕ → Engine D B S → Engine D B S
    cancel_all_orders now e = elim (brk.get_open_orders e.broker) [
      | some orders ↦ record e {
        broker = foldl (λ b o. brk.cancel_order now o.order_id b) e.broker orders;
      }
      | none ↦ e
    ]

    unfoldable pub handle_kill_switch : ℕ → Engine D B S → Engine D B S
    handle_kill_switch now e = cancel_all_orders now (alert critical "KILL SWITCH ACTIVATED" e)

    unfoldable pub update_equity : ℕ → Engine D B S → Engine D B S
    update_equity now e = elim (brk.get_account_summary now e.broker) [
      | some summary ↦
          let e' = record e {
            risk_engine = Risk.update_equity now summary.net_liquidation e.risk_engine;
          } in
          if e'.risk_engine.safe_mode then handle_kill_switch now e' else e'
      | none ↦ e
    ]

    -- `Start` marks the engine as running before it subscribes.
    unfoldable pub start : Engine D B S → Engine D B S × Result (Unit {0})
    start e =
        let (b, subscribed) = brk.subscribe_market_data e.symbol e.broker in
        let e' = record e { running = true; broker = b } in
        if e.running then (e, err already_running) else elim subscribed [
          | ok _ ↦ (
            alert info "Trading engine started"
                (record e' { trading = suc e.trading; updating = suc e.updating }),
            ok tt,
          )
          | err reason ↦ (e', err reason)
          | panic ↦ (e', panic)
        ]

    -- `Stop` up to its wait for the goroutines. Closing a closed channel panics.
    unfoldable pub stop : Engine D B S → Result (Engine D B S)
    stop e =
        if e.running
        then (if e.done_closed
            then panic
            else ok (record e { running = false; done_closed = true; stopping = suc e.stopping }))
        else ok e

    -- `Stop` from the end of its wait on.
    unfoldable pub stop_finishes : Engine D B S → Engine D B S
    stop_finishes e = alert info "Trading engine stopped" (record e {
      broker = brk.unsubscribe_market_data e.symbol e.broker;
      stopping = e.stopping - 1;
    })

    -- A step that is not possible changes nothing. The loops return when the context is done, `done` is
    -- closed or the feed has ended; a loop may still take an event or a tick before it returns.
    unfoldable pub step : Strategy D S → Step D → Engine D B S → Result (Engine D B S)
    step strategy starts e = ok (start e).0
    step strategy (receives outside event) e =
        if ltb 0 e.trading then process_market_event strategy outside event e else ok e
    step strategy (tick now) e = ok (if ltb 0 e.updating then update_equity now e else e)
    step strategy trading_returns e = ok (record e { trading = e.trading - 1 })
    step strategy updating_returns e = ok (record e { updating = e.updating - 1 })
    step strategy stops e = stop e
    step strategy stop_returns e =
        ok (if ltb 0 e.stopping && e.trading == 0 && e.updating == 0 then stop_finishes e else e)

    unfoldable pub steps : Strategy D S → List (Step D) → Engine D B S → Result (Engine D B S)
    steps strategy [] e = ok e
    steps strategy (s ∷ rest) e = step strategy s e >>= steps strategy rest
