-- ===== src/Engine/KillSwitch.antt =====
-- The moment at which the engine of internal/engine/engine.go finds the kill switch active, with the
-- paper broker.
use quant_bot.Prelude.{
  ℕ, ◌≡◌, String, Bool, true, false, ◌||◌, Option, none, some, List, [], ◌∷◌, ◌++◌, if◌then◌else◌,
  str_eq,
}
use quant_bot.Prelude.Dict.{Dict, lookup}
use quant_bot.Decimal.{Decimal}
use quant_bot.Risk.Engine.Calls as Limit
use quant_bot.Broker.{Order, submitted, cancelled}
use quant_bot.Broker.Paper.Account as Paper
use quant_bot.Broker.Paper.Orders.{status_eq}
use quant_bot.Risk.Engine as Risk
use quant_bot.Engine.{Engine, Severity}

module _ {ℓ} {D : Type ℓ} ⦃d : Decimal D⦄ where
  -- An order that waits for its fill is cancelled, another one stays as it is.
  pub withdrawn : ℕ → Order D → Order D
  withdrawn now o =
      if status_eq o.status submitted then record o { status = cancelled; updated_at = now } else o

  pub withdrawn_found : ℕ → Option (Order D) → Option (Order D)
  withdrawn_found now none = none
  withdrawn_found now (some o) = some (withdrawn now o)

  -- Whether one of the orders has the identifier.
  has_id : String → List (Order D) → Bool
  has_id key [] = false
  has_id key (o ∷ orders) = str_eq o.order_id key || has_id key orders

  module _ {S : Type ℓ} where
    -- What an update at the time `now` that finds the kill switch active does to the engine: it stays
    -- active, the alerter is told, the orders that wait for their fill are cancelled and the rest
    -- of the broker is left alone.
    pub record IsKilled (now : ℕ) (e e' : Engine D (Paper.Broker D) S) : Type ℓ where
      pub safe : e'.risk_engine.safe_mode ≡ true
      pub alerted : e'.alerts ≡ (
          if e.has_alerter
          then e.alerts
            ++ (record { severity = Severity.critical; message = "KILL SWITCH ACTIVATED" } ∷ [])
          else e.alerts)
      pub orders :
          (key : String)
          → lookup key e'.broker.orders ≡ withdrawn_found now (lookup key e.broker.orders)
      pub others : e'.broker ≡ record e.broker { orders = e'.broker.orders }
