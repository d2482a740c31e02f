-- ===== src/Strategy/Combined.antt =====
-- internal/strategy/strategy.go: the interface of a strategy, and the strategy that runs several.
pub mod Laws
pub mod Instances
use quant_bot.Prelude.{ℕ, zero, suc, Bool, String, List, [], ◌∷◌, ◌++◌, map, if◌then◌else◌}
use quant_bot.Types.{Result, ok, ◌>>=◌, Signal, MarketEvent}

-- The context of a call: whether it is done at each look that the call takes at it.
abbrev pub Looks : Type 0
Looks = ℕ → Bool

-- `Strategy`: the values of the interface are those of `S`, and a call that changes a strategy
-- returns the new one.
pub record Strategy {ℓ} (D : Type ℓ) (S : Type ℓ) : Type ℓ where
  pub on_event : Looks → MarketEvent D → S → Result (S × List (Signal D))
  pub name_of : S → String
  pub reset_state : S → S

pub record MultiStrategy {ℓ} (S : Type ℓ) : Type ℓ where
  pub strategies : List S
  pub name : String

module _ {ℓ} {S : Type ℓ} where
  unfoldable pub new_multi_strategy : String → List S → MultiStrategy S
  new_multi_strategy name strategies = record { strategies = strategies; name = name }

module _ {ℓ} {D : Type ℓ} {S : Type ℓ} (strategy : Strategy D S) where
  open strategy use {on_event, reset_state}

  -- The loop over the strategies. It looks at the context before each of them, `k` looks after the
  -- call began; the strategies read the context from there on.
  unfoldable pub run_from : ℕ → Looks → MarketEvent D → List S → Result (List S × List (Signal D))
  run_from k looks event [] = ok ([], [])
  run_from k looks event (s ∷ rest) =
      let go = on_event looks event s >>= λ first. run_from (suc k) looks event rest >>= λ others.
      ok (first.0 ∷ others.0, first.1 ++ others.1) in
      if looks k then ok (s ∷ rest, []) else go

  unfoldable pub on_market_event :
      Looks → MarketEvent D → MultiStrategy S → Result (MultiStrategy S × List (Signal D))
  on_market_event looks event m =
      run_from 0 looks event m.strategies >>= λ r. ok (record m { strategies = r.0 }, r.1)

  unfoldable pub reset : MultiStrategy S → MultiStrategy S
  reset m = record m { strategies = map reset_state m.strategies }
