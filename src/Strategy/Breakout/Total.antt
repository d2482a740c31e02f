-- ===== src/Strategy/Breakout/Total.antt =====
-- The breakout strategy answers every bar.
use quant_bot.Prelude.{
  ◌<◌, ◌≡◌, refl, sym, ◌∙◌, false, List, [], ◌∷◌, ◌++◌, Bool-cases, inl, inr, arith, length,
  length-append,
}
use quant_bot.Prelude.Int.{ltb_ℤ, pos, ◌≤ℤ◌}
use quant_bot.Decimal.{Decimal}
use quant_bot.Types.{ok, Signal, MarketEvent}
use quant_bot.Strategy.Breakout.{
  Breakout, Env, on_market_event, signals_for, signal_long, signal_short, update_range, remember,
  is_empty, tail,
}

module _ {ℓ} {D : Type ℓ} ⦃d : Decimal D⦄ where
  length-tail : (v : D) (vs : List D) → length (tail (vs ++ (v ∷ []))) ≡ length vs
  length-tail v [] = refl
  length-tail v (w ∷ vs) = omega (arith, length-append vs (v ∷ []))

  -- The history holds as many highs as lows, and at least one of each once a bar has come.
  remember_lengths :
      (event : MarketEvent D) (b : Breakout D)
      → length b.highs ≡ length b.lows
      → pos 1 ≤ℤ b.cfg.lookback_bars
      → (length (remember event b).highs ≡ length (remember event b).lows)
        × (0 < length (remember event b).highs)
  unfolding remember
  remember_lengths event b h n =
      let highs = length-append b.highs (event.high ∷ []) in
      let lows = length-append b.lows (event.low ∷ []) in
      elim (Bool-cases (ltb_ℤ b.cfg.lookback_bars (pos (length (b.highs ++ (event.high ∷ [])))))) [
        | inl e ↦
            let long_enough : 0 < length b.highs = ground (arith, e, n, highs) in
            rw e (
              length-tail event.high b.highs ∙ h ∙ sym (length-tail event.low b.lows),
              rw (length-tail event.high b.highs) long_enough,
            )
        | inr e ↦ rw e (omega (arith, highs, lows, h), omega (arith, highs))
      ]

  not_empty : (vs : List D) → 0 < length vs → is_empty vs ≡ false
  not_empty [] h = absurd (omega arith)
  not_empty (v ∷ vs) h = refl

  signals_for_kept :
      (env : Env D) (event : MarketEvent D) (b : Breakout D)
      → ((signals_for env event b).0.highs ≡ b.highs)
        × ((signals_for env event b).0.lows ≡ b.lows)
        × ((signals_for env event b).0.cfg ≡ b.cfg)
  unfolding signals_for update_range signal_long signal_short
  signals_for_kept env event b = ground arith

  remember_cfg : (event : MarketEvent D) (b : Breakout D) → (remember event b).cfg ≡ b.cfg
  unfolding remember
  remember_cfg event b = ground arith

  -- A strategy that looks back at least one bar, and whose history holds as many highs as lows,
  -- answers every bar without a panic, and its new history holds as many highs as lows again.
  pub on_market_event-ok :
      (env : Env D) (event : MarketEvent D) (b : Breakout D)
      → length b.highs ≡ length b.lows
      → pos 1 ≤ℤ b.cfg.lookback_bars
      → (b' : Breakout D) × (signals : List (Signal D)) × (on_market_event env event b
          ≡ ok (b', signals))
        × (length b'.highs ≡ length b'.lows)
        × (b'.cfg ≡ b.cfg)
  unfolding on_market_event
  on_market_event-ok env event b h n =
      let r = remember event b in
      let (same, some_bar) = remember_lengths event b h n in
      let highs = not_empty r.highs some_bar in
      let lows = not_empty r.lows (omega (arith, same, some_bar)) in
      let (kept, kept', cfg) = signals_for_kept env event r in
      elim (Bool-cases (ltb_ℤ (pos (length r.highs)) b.cfg.lookback_bars)) [
        | inl e ↦ (r, [], rw e refl, same, remember_cfg event b)
        | inr e ↦ (
          (signals_for env event r).0,
          (signals_for env event r).1,
          rw (e, highs, lows) refl,
          rw (kept, kept') same,
          cfg ∙ remember_cfg event b,
        )
      ]
