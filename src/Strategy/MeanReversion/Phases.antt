-- ===== src/Strategy/MeanReversion/Phases.antt =====
-- The mean reversion strategy as a machine of three phases.
use quant_bot.Prelude.{
  ℕ, suc, not, ◌||◌, length, ◌≡◌, refl, Bool, true, false, ◌&&◌, List, [], ◌∷◌, if◌then◌else◌,
  Bool-cases, inl, inr, arith, map,
}
use quant_bot.Prelude.Int.{pos, ltb_ℤ}
use quant_bot.Decimal.{Decimal, IsDecimal, ◌≼◌}
use quant_bot.Decimal.Order.{lt_of_lt_of_le}
use quant_bot.Types.{ok, Side, long, short, Signal, MarketEvent}
use quant_bot.Strategy.{new_signal, with_direction, with_reason, with_atr_stop}
use quant_bot.Strategy.MeanReversion.{
  MeanReversion, Env, on_market_event, signals_for, observe, is_armed, lower_band, upper_band,
  respond, build,
}
use quant_bot.Indicator.Window.{Window, is_ready, slide}
use quant_bot.Indicator.Sma.{current, update-ok}
use quant_bot.Indicator.StdDev.{
  StdDev, current_std_dev, is_ready_std_dev, IsShared, HasRoots, update_std_dev-ok,
}

-- The last signal that the price has not yet come back from.
pub data Phase : Type 0 where
  neutral : Phase
  bought : Phase
  sold : Phase

-- Where a close lies with respect to the bands.
pub data Zone : Type 0 where
  below : Zone
  above : Zone
  inside : Zone
  on_band : Zone

-- The next phase and the direction of the signal, if there is one.
unfoldable pub move : Zone → Phase → Phase × List Side
move below bought = (bought, [])
move below _ = (bought, long ∷ [])
move above sold = (sold, [])
move above _ = (sold, short ∷ [])
move inside _ = (neutral, [])
move on_band phase = (phase, [])

abbrev pub phase_of : Bool → Bool → Phase
phase_of up true = bought
phase_of true false = sold
phase_of false false = neutral

module _ {ℓ} {D : Type ℓ} ⦃d : Decimal D⦄ where
  open d use {add, sub, mul, is_zero, greater_than, less_than, less_than_or_equal}

  abbrev pub phase : MeanReversion D → Phase
  phase m = phase_of m.last_signal_up m.last_signal_down

  unfoldable pub zone : D → D → D → Zone
  zone close lower upper =
      if less_than close lower
      then below
      else if less_than upper close
      then above
      else if less_than lower close && less_than close upper
      then inside
      else on_band

  -- Both windows are full, and the deviation is at least the minimum, where one is set.
  abbrev pub can_signal : D → MeanReversion D → Bool
  can_signal deviation m =
      not (ltb_ℤ (pos (length m.sma.values)) m.sma.period)
      && not (ltb_ℤ (pos (length m.std_dev.values)) m.std_dev.period)
      && (is_zero m.cfg.min_std_dev || less_than_or_equal m.cfg.min_std_dev deviation)

  -- The distance of the bands from the mean.
  abbrev pub distance : D → MeanReversion D → D
  distance deviation m = mul deviation m.cfg.entry_std_dev

  -- The zone of the bar's close, or no zone as long as no signal is possible.
  abbrev pub zone_of : MarketEvent D → D → D → MeanReversion D → Zone
  zone_of event mean deviation m =
      if can_signal deviation m
      then zone event.close (sub mean (distance deviation m)) (add mean (distance deviation m))
      else on_band

  -- At most one of the two flags is set.
  abbrev pub IsOneFlag : MeanReversion D → Type 0
  IsOneFlag m = m.last_signal_up && m.last_signal_down ≡ false

  abbrev pub directions : List (Signal D) → List Side
  directions signals = map (λ s. s.direction) signals

  build_direction :
      (uuid : _) (side : Side) (reason : _) (event : MarketEvent D) (m : MeanReversion D)
      → (build uuid side reason event m).direction ≡ side
  unfolding build with_reason with_atr_stop with_direction new_signal
  build_direction uuid side reason event m = ground arith

  module _ (laws : IsDecimal D) where
    open laws use {greater_than-eq}

    signals_for-move :
        (env : Env D) (event : MarketEvent D) (lower upper : D) (m : MeanReversion D)
        → lower ≼ upper
        → IsOneFlag m
        → let (m', signals) = signals_for env event lower upper m in
          (IsOneFlag m')
          × ((phase m', directions signals) ≡ move (zone event.close lower upper) (phase m))
    unfolding signals_for move zone
    signals_for-move env event lower upper m h one = ground (
      arith,
      h,
      one,
      greater_than-eq event.close upper,
      greater_than-eq event.close lower,
      lt_of_lt_of_le laws event.close lower upper,
      laws.lt_trans upper event.close upper,
      laws.lt_irrefl upper,
      laws.lt_trans lower event.close lower,
      laws.lt_irrefl lower,
      build_direction env.signal_uuid long (env.below event.close lower) event m,
      build_direction env.signal_uuid short (env.above event.close upper) event m,
    )

    is_armed-can_signal :
        (deviation : D) (m : MeanReversion D) → is_armed deviation m ≡ can_signal deviation m
    unfolding is_armed is_ready is_ready_std_dev
    is_armed-can_signal deviation m =
        ground (arith, laws.less_than_or_equal-eq m.cfg.min_std_dev deviation)

    respond-move :
        (env : Env D) (event : MarketEvent D) (mean deviation : D) (m m' : MeanReversion D)
        → sub mean (distance deviation m) ≼ add mean (distance deviation m)
        → IsOneFlag m'
        → let (next, signals) = respond env event mean deviation m m' in
          (IsOneFlag next)
          × ((phase next, directions signals) ≡ move (zone_of event mean deviation m) (phase m'))
    unfolding respond move lower_band upper_band
    respond-move env event mean deviation m m' h one =
        let same = is_armed-can_signal deviation m in
        let far = distance deviation m in
        elim (Bool-cases (can_signal deviation m)) [
          | inl e ↦ rw (same, e) (signals_for-move env event (sub mean far) (add mean far) m' h one)
          | inr e ↦ rw (same, e) (one, refl)
        ]

    observe-ok :
        (roots : HasRoots D) (n k : ℕ) (event : MarketEvent D) (m : MeanReversion D)
        → m.sma.period ≡ pos (suc n)
        → m.std_dev.sma.period ≡ pos (suc k)
        → IsShared m.std_dev
        → (sma : Window D) × (std_dev : StdDev D) × (observe event m
            ≡ ok (record m { sma = sma; std_dev = std_dev }))
    unfolding observe
    observe-ok roots n k event m p q shared =
        let (_, first, _) = update-ok laws n event.close m.sma p in
        let (_, std_dev, second, _, _, _) =
          update_std_dev-ok laws roots k event.close m.std_dev shared q in
        (slide event.close m.sma, std_dev, rw (first, second) refl)

    -- Let the periods be positive, the standard deviation and its average keep the same values, every
    -- square root come out, at most one flag be set, and let the lower band of the mean and the
    -- deviation before the bar be not above the upper one, where a band is as far from the mean
    -- as the deviation times the factor for entries. Then a bar gives an answer, and the strategy
    -- does what the machine of three phases does. Where both windows are full and the deviation
    -- is at least the minimum, or none is set: a long signal for a close below the bands unless
    -- the last one was long, a short signal above them unless the last one was short, neutral
    -- again between them, and nothing on a band. Otherwise it keeps its phase and gives no
    -- signal. At most one flag is set afterwards.
    pub on_market_event-move :
        (roots : HasRoots D) (n k : ℕ) (env : Env D) (event : MarketEvent D) (m : MeanReversion D)
        (mean deviation : D)
        → m.sma.period ≡ pos (suc n)
        → m.std_dev.sma.period ≡ pos (suc k)
        → IsShared m.std_dev
        → current m.sma ≡ ok mean
        → current_std_dev m.std_dev ≡ ok deviation
        → sub mean (distance deviation m) ≼ add mean (distance deviation m)
        → IsOneFlag m
        → (m' : MeanReversion D) × (signals : List (Signal D)) × (on_market_event env event m
            ≡ ok (m', signals))
          × (IsOneFlag m')
          × ((phase m', directions signals) ≡ move (zone_of event mean deviation m) (phase m))
    unfolding on_market_event
    on_market_event-move roots n k env event m mean deviation p q shared middle spread h one =
        let (sma, std_dev, joined) = observe-ok roots n k event m p q shared in
        let m1 : MeanReversion D = record m { sma = sma; std_dev = std_dev } in
        let next = respond env event mean deviation m m1 in
        let (one', moved) = respond-move env event mean deviation m m1 h one in
        (next.0, next.1, rw (middle, spread, joined) refl, one', moved)
