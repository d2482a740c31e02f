-- ===== src/Strategy/Breakout/Signals.antt =====
-- What a signal of the breakout strategy says of the prices.
use quant_bot.Prelude.{
  ◌≤◌, ◌≡◌, refl, String, not, ◌&&◌, ◌||◌, List, [], ◌∷◌, ◌++◌, All, Bool-cases, inl, inr, ◌⊎◌,
  arith, init, length,
}
use quant_bot.Prelude.Int.{ltb_ℤ, pos}
use quant_bot.Decimal.{Decimal, IsDecimal, ◌≼◌, ◌≺◌}
use quant_bot.Decimal.Order.{
  le_trans, lt_of_le_of_lt, lt_of_lt_of_le, le-add, sub_le, sub_nonneg, mul_nonneg,
}
use quant_bot.Types.{ok, Side, long, short, Signal, MarketEvent}
use quant_bot.Strategy.{new_signal, with_direction, with_reason, with_atr_stop}
use quant_bot.Strategy.Breakout.{
  BreakoutConfig, Breakout, Env, on_market_event, signals_for, signal_long, signal_short,
  update_range, remember, is_empty, calculate_high, calculate_low, breakout_high, breakout_low,
  build,
}
use quant_bot.Strategy.Breakout.Range.{calculate_high_bound, calculate_low_bound}

module _ {ℓ} {D : Type ℓ} ⦃d : Decimal D⦄ where
  open d use {zero_dec, sub, mul, greater_than, less_than, is_zero}

  build_direction :
      (uuid : String) (side : Side) (reason : String) (event : MarketEvent D) (b : Breakout D)
      → (build uuid side reason event b).direction ≡ side
  unfolding build with_reason with_atr_stop with_direction new_signal
  build_direction uuid side reason event b = ground arith

  -- No signal, or one on the side, whose condition holds.
  abbrev IsOneOr : Side → Type 0 → List (Signal D) → Type ℓ
  IsOneOr side P signals =
      (signals ≡ []) ⊎ ((s : Signal D) × (signals ≡ s ∷ []) × (s.direction ≡ side) × P)

  update_range_kept :
      (b : Breakout D)
      → ((update_range b).highs ≡ b.highs)
        × ((update_range b).lows ≡ b.lows)
        × ((update_range b).cfg ≡ b.cfg)
  unfolding update_range
  update_range_kept b = ground arith

  signal_long_kept :
      (env : Env D) (event : MarketEvent D) (level : D) (b : Breakout D)
      → ((signal_long env event level b).0.highs ≡ b.highs)
        × ((signal_long env event level b).0.lows ≡ b.lows)
  unfolding signal_long
  signal_long_kept env event level b = ground arith

  signal_short_kept :
      (env : Env D) (event : MarketEvent D) (level : D) (b : Breakout D)
      → ((signal_short env event level b).0.highs ≡ b.highs)
        × ((signal_short env event level b).0.lows ≡ b.lows)
  unfolding signal_short
  signal_short_kept env event level b = ground arith

  -- The signals of a bar: a long one if its close is above every earlier high, a short one if its
  -- close is below every earlier low.
  abbrev pub IsBreakout : MarketEvent D → List D → List D → Signal D → Type 0
  IsBreakout event highs lows s =
      ((s.direction ≡ long) × All (λ h. h ≺ event.close) highs)
      ⊎ ((s.direction ≡ short) × All (λ l. event.close ≺ l) lows)

  module _ (laws : IsDecimal D) where
    open laws use {greater_than-eq}

    signal_long_sound :
        (env : Env D) (event : MarketEvent D) (level : D) (b : Breakout D)
        → IsOneOr long (level ≺ event.close) (signal_long env event level b).1
    unfolding signal_long
    signal_long_sound env event level b =
        elim (Bool-cases (greater_than event.close level && not b.signalled_long)) [
          | inl e ↦ inr (
            build env.long_uuid long (env.above level) event b,
            rw e refl,
            build_direction env.long_uuid long (env.above level) event b,
            ground (arith, e, greater_than-eq event.close level),
          )
          | inr e ↦ inl (rw e refl)
        ]

    signal_short_sound :
        (env : Env D) (event : MarketEvent D) (level : D) (b : Breakout D)
        → IsOneOr short (event.close ≺ level) (signal_short env event level b).1
    unfolding signal_short
    signal_short_sound env event level b =
        elim (Bool-cases (less_than event.close level && not b.signalled_short)) [
          | inl e ↦ inr (
            build env.short_uuid short (env.below level) event b,
            rw e refl,
            build_direction env.short_uuid short (env.below level) event b,
            ground (arith, e),
          )
          | inr e ↦ inl (rw e refl)
        ]

    closes_above :
        (high close : D) (hs : List D)
        → high ≺ close
        → All (λ h. h ≼ high) hs
        → All (λ h. h ≺ close) hs
    closes_above high close [] l h = tt
    closes_above high close (v ∷ vs) l (h, hs) =
        (lt_of_le_of_lt laws v high close h l, closes_above high close vs l hs)

    closes_below :
        (low close : D) (ls : List D)
        → close ≺ low
        → All (λ l. low ≼ l) ls
        → All (λ l. close ≺ l) ls
    closes_below low close [] l h = tt
    closes_below low close (v ∷ vs) l (h, hs) =
        (lt_of_lt_of_le laws close low v l h, closes_below low close vs l hs)

    -- The levels of the breakout lie outside the range.
    levels :
        (cfg : BreakoutConfig D) (high low : D)
        → zero_dec ≼ cfg.breakout_buffer
        → low ≼ high
        → (high ≼ breakout_high cfg high low) × (breakout_low cfg high low ≼ low)
    unfolding breakout_high breakout_low
    levels cfg high low p h =
        let buffer = mul (sub high low) cfg.breakout_buffer in
        let wide =
          mul_nonneg laws (sub high low) cfg.breakout_buffer (sub_nonneg laws low high h) p in
        (le-add laws high buffer wide, sub_le laws low buffer wide)

    one_signal :
        (event : MarketEvent D) (highs lows : List D) (up down : D) (longs shorts : List (Signal D))
        → calculate_high highs ≼ up
        → down ≼ calculate_low lows
        → down ≼ up
        → IsOneOr long (up ≺ event.close) longs
        → IsOneOr short (event.close ≺ down) shorts
        → All (IsBreakout event highs lows) (longs ++ shorts) × (length (longs ++ shorts) ≤ 1)
    one_signal event highs lows up down longs shorts h l n (inl e) (inl f) =
        rw (e, f) (tt, omega arith)
    one_signal event highs lows up down longs shorts h l n (inl e) (inr (s, f, side, c)) =
        let below =
          closes_below (calculate_low lows) event.close lows
            (lt_of_lt_of_le laws event.close down (calculate_low lows) c l)
            (calculate_low_bound laws lows) in
        rw (e, f) ((inr (side, below), tt), omega arith)
    one_signal event highs lows up down longs shorts h l n (inr (s, e, side, c)) (inl f) =
        let above =
          closes_above (calculate_high highs) event.close highs
            (lt_of_le_of_lt laws (calculate_high highs) up event.close h c)
            (calculate_high_bound laws highs) in
        rw (e, f) ((inl (side, above), tt), omega arith)
    one_signal event highs lows up down longs shorts h l n (inr (s, e, side, c))
          (inr (s', f, side', c')) =
        let crossed : up ≺ down = laws.lt_trans up event.close down c c' in absurd (cc (n, crossed))

    signals_for_sound :
        (env : Env D) (event : MarketEvent D) (b : Breakout D)
        → zero_dec ≼ b.cfg.breakout_buffer
        → calculate_low (init b.lows) ≼ calculate_high (init b.highs)
        → All (IsBreakout event (init b.highs) (init b.lows)) (signals_for env event b).1
          × (length (signals_for env event b).1 ≤ 1)
    unfolding signals_for
    signals_for_sound env event b p h =
        let high = calculate_high (init b.highs) in
        let low = calculate_low (init b.lows) in
        let up = breakout_high b.cfg high low in
        let down = breakout_low b.cfg high low in
        let b0 = update_range b in
        let b1 = (signal_long env event up b0).0 in
        let (over, under) = levels b.cfg high low p h in
        let apart = le_trans laws down low up under (le_trans laws low high up h over) in
        elim (Bool-cases (not (is_zero b.cfg.min_atr) && less_than event.atr b.cfg.min_atr)) [
          | inl e ↦ rw e (tt, omega arith)
          | inr e ↦ rw e (
              one_signal event (init b.highs) (init b.lows) up down (signal_long env event up b0).1
                (signal_short env event down b1).1 over under apart
                (signal_long_sound env event up b0) (signal_short_sound env event down b1))
        ]

    -- With a buffer that is not negative, and earlier bars whose lowest low is not above their highest
    -- high, a bar gives at most one signal: a long one only if it closes above every earlier high of
    -- the history, a short one only if it closes below every earlier low.
    pub on_market_event-IsBreakout :
        (env : Env D) (event : MarketEvent D) (b b' : Breakout D) (signals : List (Signal D))
        → on_market_event env event b ≡ ok (b', signals)
        → zero_dec ≼ (remember event b).cfg.breakout_buffer
        → calculate_low (init (remember event b).lows)
          ≼ calculate_high (init (remember event b).highs)
        → All
            (IsBreakout event (init (remember event b).highs) (init (remember event b).lows))
            signals
          × (length signals ≤ 1)
    unfolding on_market_event
    on_market_event-IsBreakout env event b b' signals h p l =
        let r = remember event b in
        elim (Bool-cases (ltb_ℤ (pos (length r.highs)) r.cfg.lookback_bars)) [
          | inl e ↦
              let nothing : signals ≡ [] = ground (arith, h, e) in rw nothing (tt, omega arith)
          | inr e ↦ elim (Bool-cases (is_empty r.highs || is_empty r.lows)) [
            | inl f ↦ absurd (ground (arith, h, e, f))
            | inr f ↦
                let same : signals ≡ (signals_for env event r).1 = ground (arith, h, e, f) in
                rw same (signals_for_sound env event r p l)
          ]
        ]
