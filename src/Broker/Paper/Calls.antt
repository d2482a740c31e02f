-- ===== src/Broker/Paper/Calls.antt =====
-- Runs of the paper broker: its calls, between which the fills take place in any order.
use quant_bot.Prelude.{ℕ, zero, suc, String, Option, none, some, List, [], ◌∷◌, if◌then◌else◌}
use quant_bot.Decimal.{Decimal}
use quant_bot.Types.{Result, ok, ◌>>=◌, MarketEvent, OrderIntent}
use quant_bot.Broker.Paper.Account.{
  Broker, connect, disconnect, subscribe_market_data, unsubscribe_market_data,
}
use quant_bot.Broker.Paper.Positions.{simulate_market_data}
use quant_bot.Broker.Paper.Orders.{place_order, simulate_fill, cancel_order, fill_commission}

-- The calls of the broker, and `finish`, which lets the goroutine at the index finish its fill.
pub data Call {ℓ} (D : Type ℓ) : Type ℓ where
  connects : Call D
  disconnects : Call D
  subscribe : String → Call D
  unsubscribe : String → Call D
  bar : ℕ → MarketEvent D → Call D
  order : ℕ → OrderIntent D → Call D
  finish : ℕ → ℕ → Call D
  leave : ℕ → Call D
  cancel : ℕ → String → Call D

module _ {ℓ} {A : Type ℓ} where
  -- The member at the index, where there is one, and the others.
  abbrev pub pick : ℕ → List A → Option (A × List A)
  pick n [] = none
  pick zero (x ∷ xs) = some (x, xs)
  pick (suc n) (x ∷ xs) = elim (pick n xs) [ none ↦ none | some (y, ys) ↦ some (y, x ∷ ys) ]

module _ {ℓ} {D : Type ℓ} ⦃d : Decimal D⦄ where
  open d use {zero_dec, add, sub}

  -- The broker after the call, and the commission of a fill.
  unfoldable pub call : Call D → Broker D → Result (Broker D × D)
  call connects b = ok (connect b, zero_dec)
  call disconnects b = disconnect b >>= λ b'. ok (b', zero_dec)
  call (subscribe s) b = ok (subscribe_market_data s b, zero_dec)
  call (unsubscribe s) b = ok (unsubscribe_market_data s b, zero_dec)
  call (bar now event) b = simulate_market_data now event b >>= λ b'. ok (b', zero_dec)
  call (order now intent) b = ok ((place_order now intent b).0, zero_dec)
  call (finish now i) b = elim (pick i b.running) [
    | none ↦ ok (b, zero_dec)
    | some (r, rest) ↦ simulate_fill now r (record b { running = rest }) >>= λ b'.
        ok (b', fill_commission b r.intent)
  ]
  call (leave i) b = elim (pick i b.running) [
    | none ↦ ok (b, zero_dec)
    | some (r, rest) ↦ ok (if b.done then record b { running = rest } else b, zero_dec)
  ]
  call (cancel now id) b = ok (cancel_order now id b, zero_dec)

  -- The broker after the calls, and the commissions of all their fills.
  unfoldable pub calls : List (Call D) → Broker D → Result (Broker D × D)
  calls [] b = ok (b, zero_dec)
  calls (c ∷ cs) b = call c b >>= λ (b', fee). calls cs b' >>= λ (b'', fees). ok (b'', add fee fees)
