-- ===== src/Broker/Paper/Account.antt =====
-- internal/broker/paper/paper.go: the state, the account and the subscriptions.
use quant_bot.Prelude.{
  ℕ, String, Bool, true, false, none, some, List, [], ◌∷◌, ◌++◌, if◌then◌else◌, ltb, length,
}
use quant_bot.Prelude.Int.{ℤ, pos}
use quant_bot.Prelude.Dict.{Dict, lookup, insert, erase}
use mathlib.Core.List.{foldl}
use quant_bot.Decimal.{Decimal}
use quant_bot.Types.{Result, ok, panic, MarketEvent, OrderIntent}
use quant_bot.Broker.{
  ConnectionState, disconnected, connected, connecting, error, AccountSummary, Position, Order,
}

pub record Config {ℓ} (D : Type ℓ) : Type ℓ where
  pub initial_equity : D
  pub slippage_ticks : ℤ
  pub commission_per_side : D
  pub fill_delay : ℕ

-- A goroutine of `PlaceOrder` that has not finished its `simulateFill`.
pub record Running {ℓ} (D : Type ℓ) : Type ℓ where
  pub order_id : String
  pub intent : OrderIntent D

-- `subscriptions` holds the events in the buffer of each channel.
pub record Broker {ℓ} (D : Type ℓ) : Type ℓ where
  pub cfg : Config D
  pub state : ConnectionState
  pub equity : D
  pub cash : D
  pub positions : Dict (Position D)
  pub orders : Dict (Order D)
  pub next_order_id : ℕ
  pub subscriptions : Dict (List (MarketEvent D))
  pub prices : Dict D
  pub done : Bool
  pub running : List (Running D)

abbrev pub state_eq : ConnectionState → ConnectionState → Bool
state_eq disconnected disconnected = true
state_eq connecting connecting = true
state_eq connected connected = true
state_eq error error = true
state_eq _ _ = false

module _ {ℓ} {D : Type ℓ} ⦃d : Decimal D⦄ where
  open d use {zero_dec, of_int, literal, add, sub, mul, neg}

  unfoldable pub default_config : Config D
  default_config = record {
    initial_equity = of_int (pos 10000);
    slippage_ticks = pos 1;
    commission_per_side = literal 62 2;
    fill_delay = 50_000_000;
  }

  unfoldable pub new_broker : Config D → Broker D
  new_broker cfg = record {
    cfg = cfg;
    state = disconnected;
    equity = cfg.initial_equity;
    cash = cfg.initial_equity;
    positions = [];
    orders = [];
    next_order_id = 1;
    subscriptions = [];
    prices = [];
    done = false;
    running = [];
  }

  unfoldable pub connect : Broker D → Broker D
  connect b = record b { state = connected }

  -- `Disconnect` up to its wait for the goroutines; closing a closed channel panics.
  unfoldable pub disconnect : Broker D → Result (Broker D)
  disconnect b = if b.done then panic else ok (record b { state = disconnected; done = true })

  unfoldable pub is_connected : Broker D → Bool
  is_connected b = state_eq b.state connected

  unfoldable pub calculate_unrealized_pnl : Broker D → D
  calculate_unrealized_pnl b = foldl (λ total e. add total e.1.unrealized_pnl) zero_dec b.positions

  unfoldable pub get_account_summary : ℕ → Broker D → AccountSummary D
  get_account_summary now b =
      let unrealized = calculate_unrealized_pnl b in
      record {
        account_id = "PAPER";
        currency = "USD";
        net_liquidation = add b.equity unrealized;
        total_cash_value = b.cash;
        buying_power = mul b.cash (of_int (pos 4));
        available_funds = b.cash;
        excess_liquidity = zero_dec;
        init_margin_req = zero_dec;
        maint_margin_req = zero_dec;
        unrealized_pnl = unrealized;
        realized_pnl = zero_dec;
        last_updated = now;
      }

  unfoldable pub get_equity : Broker D → D
  get_equity b = add b.equity (calculate_unrealized_pnl b)

  unfoldable pub subscribe_market_data : String → Broker D → Broker D
  subscribe_market_data symbol b = elim (lookup symbol b.subscriptions) [
    | some _ ↦ b
    | none ↦ record b { subscriptions = insert symbol [] b.subscriptions }
  ]

  unfoldable pub unsubscribe_market_data : String → Broker D → Broker D
  unsubscribe_market_data symbol b = record b { subscriptions = erase symbol b.subscriptions }

  -- The buffer of a channel for 100 events; an event that finds it full is dropped.
  abbrev send : MarketEvent D → List (MarketEvent D) → List (MarketEvent D)
  send event buffer = if ltb (length buffer) 100 then buffer ++ (event ∷ []) else buffer

  unfoldable pub publish : MarketEvent D → Broker D → Broker D
  publish event b = elim (lookup event.symbol b.subscriptions) [
    | none ↦ b
    | some buffer ↦ record b {
      subscriptions = insert event.symbol (send event buffer) b.subscriptions;
    }
  ]
