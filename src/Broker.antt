-- ===== src/Broker.antt =====
-- internal/broker/broker.go: the records that a broker exchanges with its clients.
pub mod Paper
pub mod Contract
use quant_bot.Prelude.{ℕ, String}
use quant_bot.Prelude.Int.{ℤ}
use quant_bot.Types.{Side}

pub data ConnectionState : Type 0 where
  disconnected : ConnectionState
  connecting : ConnectionState
  connected : ConnectionState
  error : ConnectionState

unfoldable pub state_string : ConnectionState → String
state_string disconnected = "disconnected"
state_string connecting = "connecting"
state_string connected = "connected"
state_string error = "error"

pub data OrderType : Type 0 where
  market : OrderType
  limit : OrderType
  stop : OrderType
  stop_limit : OrderType
  trail_stop : OrderType

pub data OrderStatus : Type 0 where
  pending : OrderStatus
  submitted : OrderStatus
  filled : OrderStatus
  partial : OrderStatus
  cancelled : OrderStatus
  rejected : OrderStatus

pub record AccountSummary {ℓ} (D : Type ℓ) : Type ℓ where
  pub account_id : String
  pub currency : String
  pub net_liquidation : D
  pub total_cash_value : D
  pub buying_power : D
  pub available_funds : D
  pub excess_liquidity : D
  pub init_margin_req : D
  pub maint_margin_req : D
  pub unrealized_pnl : D
  pub realized_pnl : D
  pub last_updated : ℕ

pub record Position {ℓ} (D : Type ℓ) : Type ℓ where
  pub symbol : String
  pub contracts : ℤ
  pub side : Side
  pub avg_cost : D
  pub market_price : D
  pub market_value : D
  pub unrealized_pnl : D
  pub realized_pnl : D
  pub last_updated : ℕ

pub record Order {ℓ} (D : Type ℓ) : Type ℓ where
  pub order_id : String
  pub client_order_id : String
  pub symbol : String
  pub side : Side
  pub quantity : ℤ
  pub order_type : OrderType
  pub limit_price : D
  pub stop_price : D
  pub status : OrderStatus
  pub filled_qty : ℤ
  pub avg_fill_price : D
  pub commission : D
  pub created_at : ℕ
  pub updated_at : ℕ

pub record OrderResult : Type 0 where
  pub order_id : String
  pub client_order_id : String
  pub status : OrderStatus
  pub message : String
  pub submitted_at : ℕ
