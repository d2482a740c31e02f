-- ===== src/Risk/Engine/Calls.antt =====
-- Sequences of calls of the risk engine: the kill switch latches.
use quant_bot.Prelude.{
  ℕ, ◌≡◌, refl, true, Option, none, some, List, [], ◌∷◌, arith, All, if◌then◌else◌,
}
use quant_bot.Decimal.{Decimal, IsDecimal, ◌≼◌}
use quant_bot.Types.{
  Result, ok, err, Signal, MarketEvent, OrderIntent, Position, kill_switch_active, context_done,
}
use quant_bot.Risk.HighWater.{update, drawdown}
use quant_bot.Risk.Engine.{
  Engine, Env, update_equity, update_position, enter_safe_mode_locked, exit_safe_mode,
  validate_and_size,
}

-- The calls that change the engine, with their arguments.
pub data Call {ℓ} (D : Type ℓ) : Type ℓ where
  equity : ℕ → D → Call D
  position : Position D → Call D
  enter : ℕ → Call D
  exit : Call D
  validate : Env → Signal D → MarketEvent D → Call D

abbrev pub IsNoExit {ℓ} : {D : Type ℓ} → Call D → Type 0
IsNoExit exit = ⊥
IsNoExit _ = Unit

module _ {ℓ} {D : Type ℓ} ⦃d : Decimal D⦄ where
  open d use {greater_than_or_equal}

  -- The intent that a validation issues.
  abbrev issued : Result (OrderIntent D) → Option (OrderIntent D)
  issued (ok intent) = some intent
  issued _ = none

  unfoldable pub call : Call D → Engine D → Engine D × Option (OrderIntent D)
  call (equity now value) e = (update_equity now value e, none)
  call (position p) e = (update_position p e, none)
  call (enter now) e = (enter_safe_mode_locked now e, none)
  call exit e = (exit_safe_mode e, none)
  call (validate env signal event) e =
      let (e', r) = validate_and_size env signal event e in (e', issued r)

  -- The engine after the calls, and the intents that they issued.
  unfoldable pub calls : List (Call D) → Engine D → Engine D × List (Option (OrderIntent D))
  calls [] e = (e, [])
  calls (c ∷ cs) e =
      let (e', intent) = call c e in let (e'', intents) = calls cs e' in (e'', intent ∷ intents)

  -- In safe mode a validation is refused and leaves the engine as it is.
  pub validate_and_size_safe :
      (env : Env) (signal : Signal D) (event : MarketEvent D) (e : Engine D)
      → e.safe_mode ≡ true
      → validate_and_size env signal event e
        ≡ (e, if env.context_is_done then err context_done else err kill_switch_active)
  unfolding validate_and_size
  validate_and_size_safe env signal event e h = ground arith

  call_safe :
      (c : Call D) (e : Engine D)
      → IsNoExit c
      → e.safe_mode ≡ true
      → ((call c e).0.safe_mode ≡ true) × ((call c e).1 ≡ none)
  unfolding call update_equity update_position enter_safe_mode_locked
  call_safe (equity now value) e k h = ground arith
  call_safe (position p) e k h = ground arith
  call_safe (enter now) e k h = ground arith
  call_safe exit e k h = absurd k
  call_safe (validate env signal event) e k h =
      ground (arith, validate_and_size_safe env signal event e h)

  -- Once the kill switch is active, no sequence of calls without `ExitSafeMode` leaves safe mode, and
  -- none of its validations issues an order intent.
  pub calls_safe :
      (cs : List (Call D)) (e : Engine D)
      → All IsNoExit cs
      → e.safe_mode ≡ true
      → ((calls cs e).0.safe_mode ≡ true) × All (λ i. i ≡ none) (calls cs e).1
  unfolding calls
  calls_safe [] e k h = (h, tt)
  calls_safe (c ∷ cs) e (k, ks) h =
      let (safe, nothing) = call_safe c e k h in
      let (later, rest) = calls_safe cs (call c e).0 ks safe in (later, (nothing, rest))

  pub update_equity_limit :
      (now : ℕ) (value : D) (e : Engine D)
      → (update_equity now value e).safe_mode ≡ (
          if greater_than_or_equal (drawdown (update value e.hwm).0) e.cfg.max_global_drawdown_pct
          then true
          else e.safe_mode)
  unfolding update_equity
  update_equity_limit now value e = ground arith

  -- An equity update that takes the drawdown to its limit stops the trading: from then on, whatever
  -- is called but `ExitSafeMode`, the engine stays in safe mode and no validation issues an order
  -- intent.
  pub calls_breach :
      (laws : IsDecimal D) (now : ℕ) (value : D) (cs : List (Call D)) (e : Engine D)
      → e.cfg.max_global_drawdown_pct ≼ drawdown (update value e.hwm).0
      → All IsNoExit cs
      → ((calls (equity now value ∷ cs) e).0.safe_mode ≡ true)
        × All (λ i. i ≡ none) (calls (equity now value ∷ cs) e).1
  unfolding calls call
  calls_breach laws now value cs e h k =
      let (safe, nothing) = calls_safe cs (update_equity now value e) k (
        ground (
          arith,
          update_equity_limit now value e,
          laws.greater_than_or_equal-eq (drawdown (update value e.hwm).0)
              e.cfg.max_global_drawdown_pct,
        )) in
      (safe, (refl, nothing))
