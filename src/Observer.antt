-- ===== src/Observer.antt =====
-- internal/observer/feed.go: the interfaces of a market data feed and of the calculator, and the observer
-- that joins them. The channel that a subscription returns is the list of the events that are
-- sent to it before it is closed; a context that is done cuts it off.
pub mod Feeds
pub mod Parsing
use quant_bot.Prelude.{ℕ, suc, Bool, true, false, if◌then◌else◌, String, List, [], ◌∷◌}
use quant_bot.Types.{Result, ok, err, panic, ◌>>=◌, MarketEvent}

-- `MarketDataFeed`: a feed is a state of type `F`; `W` is what it reads from outside.
pub record MarketDataFeed {ℓ} (D F : Type ℓ) (W : Type 0) : Type ℓ where
  pub subscribe : W → String → F → F × Result (List (MarketEvent D))
  pub close : F → F
  pub name : F → String

-- `IndicatorCalculator`
pub record IndicatorCalculator {ℓ} (D C : Type ℓ) : Type ℓ where
  pub on_bar : MarketEvent D → C → Result (C × MarketEvent D)
  pub reset : C → C

pub record Observer {ℓ} (F C : Type ℓ) : Type ℓ where
  pub feed : F
  pub calculator : C

module _ {ℓ} {D F C : Type ℓ} {W : Type 0} (feeds : MarketDataFeed D F W)
    (calculators : IndicatorCalculator D C) where
  -- The loop of the goroutine of `Subscribe` after `k` events. `done_at k` is whether its first select
  -- takes the context that is done, and `drops_at k` whether the second one does, behind the
  -- calculator.
  unfoldable pub enrich :
      (ℕ → Bool) → (ℕ → Bool) → ℕ → List (MarketEvent D) → C → Result (C × List (MarketEvent D))
  enrich done_at drops_at k [] c = ok (c, [])
  enrich done_at drops_at k (event ∷ events) c =
      let later = enrich done_at drops_at (suc k) events in
      if done_at k
      then ok (c, [])
      else calculators.on_bar event c >>= λ (c', enriched).
          if drops_at k
          then ok (c', [])
          else later c' >>= λ (last, rest). ok (last, enriched ∷ rest)

  unfoldable pub subscribe :
      (ℕ → Bool)
      → (ℕ → Bool)
      → W
      → String
      → Observer F C
      → Observer F C × Result (List (MarketEvent D))
  subscribe done_at drops_at outside symbol o =
      let (feed, raw) = feeds.subscribe outside symbol o.feed in
      elim raw [
        | ok events ↦ elim (enrich done_at drops_at 0 events o.calculator) [
          | ok (c, enriched) ↦ (record { feed = feed; calculator = c }, ok enriched)
          | err reason ↦ (record o { feed = feed }, err reason)
          | panic ↦ (record o { feed = feed }, panic)
        ]
        | err reason ↦ (record o { feed = feed }, err reason)
        | panic ↦ (record o { feed = feed }, panic)
      ]

  unfoldable pub close : Observer F C → Observer F C
  close o = record o { feed = feeds.close o.feed }

  unfoldable pub reset : Observer F C → Observer F C
  reset o = record o { calculator = calculators.reset o.calculator }
