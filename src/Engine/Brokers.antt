-- ===== src/Engine/Brokers.antt =====
-- internal/broker/paper/paper.go as the broker of the engine of internal/engine/engine.go. A goroutine
-- that fills an order is not a step of the engine's run.
use quant_bot.Prelude.{ℕ, ◌≡◌, some, List, arith}
use quant_bot.Decimal.{Decimal}
use quant_bot.Types.{ok}
use quant_bot.Broker.Paper.Account as Paper
use quant_bot.Broker.Paper.Orders as Orders
use quant_bot.Engine.{Broker}
use quant_bot.Engine.Halt.{IsKept}

module _ {ℓ} {D : Type ℓ} ⦃d : Decimal D⦄ where
  unfoldable pub paper_broker : Broker D (Paper.Broker D)
  paper_broker = record {
    subscribe_market_data = λ symbol b. (Paper.subscribe_market_data symbol b, ok tt);
    unsubscribe_market_data = Paper.unsubscribe_market_data;
    get_account_summary = λ now b. some (Paper.get_account_summary now b);
    place_order = Orders.place_order;
    cancel_order = Orders.cancel_order;
    get_open_orders = λ b. some (Orders.get_open_orders b);
  }

  -- An order that has been placed uses an identifier up and starts a goroutine that fills it.
  pub record IsIdle (n : ℕ) (running : List (Paper.Running D)) (b : Paper.Broker D) : Type ℓ where
    pub used : b.next_order_id ≡ n
    pub filling : b.running ≡ running

  pub paper_broker-IsKept :
      (n : ℕ) (running : List (Paper.Running D)) → IsKept paper_broker (IsIdle n running)
  unfolding paper_broker Paper.subscribe_market_data Paper.unsubscribe_market_data
      Orders.cancel_order
  paper_broker-IsKept n running = record {
    subscribed =
        λ symbol b h. record { used = ground (arith, h.used); filling = ground (arith, h.filling) };
    unsubscribed = λ symbol b h. record { used = h.used; filling = h.filling };
    order_cancelled =
        λ now id b h. record { used = ground (arith, h.used); filling = ground (arith, h.filling) };
  }
