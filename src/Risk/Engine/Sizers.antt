-- ===== src/Risk/Engine/Sizers.antt =====
-- The cache of sizers: it never changes what `getOrCreateSizer` returns.
use quant_bot.Prelude.{
  ◌≡◌, refl, inl, inr, String, none, some, List, [], ◌∷◌, arith, eq_iff, Option-cases,
}
use mathlib.Core.Path.{fun_ext}
use quant_bot.Prelude.Dict.{Dict, lookup, insert, lookup-insert}
use quant_bot.Decimal.{Decimal}
use quant_bot.Types.{Result, ok, err, panic, ◌>>=◌, Signal, MarketEvent}
use quant_bot.Risk.Sizer.{PositionSizer, new_position_sizer_for_symbol}
use quant_bot.Risk.Engine.{
  Config, Engine, Env, new_engine, update_equity, update_position, enter_safe_mode_locked,
  exit_safe_mode, validate_and_size, get_or_create_sizer, size_order, check_exposure_limits,
}
use quant_bot.Risk.Engine.Calls.{Call, equity, position, enter, exit, validate, call, calls}

-- Every sizer in the cache is the one that would be made for its symbol.
abbrev pub IsCoherent {ℓ} : {D : Type ℓ} ⦃d : Decimal D⦄ → Engine D → Type ℓ
IsCoherent {D = D} e =
    (s : String) (p : PositionSizer D)
    → lookup s e.sizers ≡ some p
    → new_position_sizer_for_symbol s ≡ ok p

module _ {ℓ} {D : Type ℓ} ⦃d : Decimal D⦄ where
  get_or_create_sizer-eq :
      (s : String) (e : Engine D)
      → IsCoherent e
      → (get_or_create_sizer s e).1 ≡ new_position_sizer_for_symbol s
  unfolding get_or_create_sizer
  get_or_create_sizer-eq s e h = elim (Option-cases (lookup s e.sizers)) [
    | inl new ↦ ground arith
    | inr (p, old) ↦ ground (arith, h s p old)
  ]

  get_or_create_sizer-IsCoherent :
      (s : String) (e : Engine D) → IsCoherent e → IsCoherent (get_or_create_sizer s e).0
  unfolding get_or_create_sizer
  get_or_create_sizer-IsCoherent s e h k p found = elim (Option-cases (lookup s e.sizers)) [
    | inl new ↦ made (new_position_sizer_for_symbol s) refl new
    | inr (q, old) ↦ ground (arith, h k p)
  ]
    where
      made :
          (r : Result (PositionSizer D))
          → new_position_sizer_for_symbol s ≡ r
          → lookup s e.sizers ≡ none
          → new_position_sizer_for_symbol k ≡ ok p
      made (ok q) fresh new = ground (arith, lookup-insert s k q e.sizers, eq_iff s k, h k p)
      made (err x) fresh new = ground (arith, h k p)
      made panic fresh new = ground (arith, h k p)

  pub size_order-sizers :
      (env : Env) (signal : Signal D) (event : MarketEvent D) (e : Engine D)
      (m : Dict (PositionSizer D))
      → size_order env signal event (record e { sizers = m }) ≡ size_order env signal event e
  unfolding size_order check_exposure_limits
  size_order-sizers env signal event e m = fun_ext (λ p. refl)

  pub get_or_create_sizer_engine :
      (s : String) (e : Engine D)
      → (m : Dict (PositionSizer D)) × ((get_or_create_sizer s e).0 ≡ record e { sizers = m })
  unfolding get_or_create_sizer
  get_or_create_sizer_engine s e = elim (Option-cases (lookup s e.sizers)) [
    | inl new ↦ made (new_position_sizer_for_symbol s) refl new
    | inr (q, old) ↦ (e.sizers, ground arith)
  ]
    where
      made :
          (r : Result (PositionSizer D))
          → new_position_sizer_for_symbol s ≡ r
          → lookup s e.sizers ≡ none
          → (m : Dict (PositionSizer D)) × ((get_or_create_sizer s e).0 ≡ record e { sizers = m })
      made (ok q) fresh new = (insert s q e.sizers, ground arith)
      made (err x) fresh new = (e.sizers, ground arith)
      made panic fresh new = (e.sizers, ground arith)

  -- With a coherent cache the order is sized as if the sizer were made anew.
  size_order-uncached :
      (env : Env) (signal : Signal D) (event : MarketEvent D) (e : Engine D)
      → IsCoherent e
      → let (e', sizer) = get_or_create_sizer signal.symbol e in
        (sizer >>= size_order env signal event e')
        ≡ (new_position_sizer_for_symbol signal.symbol >>= size_order env signal event e)
  size_order-uncached env signal event e h =
      let (m, same) = get_or_create_sizer_engine signal.symbol e in
      rw (get_or_create_sizer-eq signal.symbol e h, same, size_order-sizers env signal event e m)

  call-IsCoherent : (c : Call D) (e : Engine D) → IsCoherent e → IsCoherent (call c e).0
  unfolding call update_equity update_position enter_safe_mode_locked exit_safe_mode
      validate_and_size
  call-IsCoherent (equity now value) e h s p found = ground (arith, h s p)
  call-IsCoherent (position q) e h s p found = ground (arith, h s p)
  call-IsCoherent (enter now) e h s p found = ground (arith, h s p)
  call-IsCoherent exit e h s p found = ground (arith, h s p)
  call-IsCoherent (validate env signal event) e h s p found =
      ground (arith, h s p, get_or_create_sizer-IsCoherent signal.symbol e h s p)

  calls-IsCoherent : (cs : List (Call D)) (e : Engine D) → IsCoherent e → IsCoherent (calls cs e).0
  unfolding calls
  calls-IsCoherent [] e h = h
  calls-IsCoherent (c ∷ cs) e h = calls-IsCoherent cs (call c e).0 (call-IsCoherent c e h)

  validate_and_size-uncached :
      (env : Env) (signal : Signal D) (event : MarketEvent D) (e : Engine D)
      → IsCoherent e
      → (validate_and_size env signal event e).1
        ≡ (validate_and_size env signal event (record e { sizers = [] })).1
  unfolding validate_and_size lookup
  validate_and_size-uncached env signal event e h = ground (
    arith,
    size_order-uncached env signal event e h,
    size_order-uncached env signal event (record e { sizers = [] }) (λ s p found. cc),
    size_order-sizers env signal event e [],
  )

  -- After any sequence of calls of a new engine, the next validation returns what it would return
  -- with an empty cache of sizers.
  pub calls-uncached :
      (cfg : Config D) (initial : D) (cs : List (Call D)) (env : Env) (signal : Signal D)
      (event : MarketEvent D)
      → let e = (calls cs (new_engine cfg initial)).0 in
        (validate_and_size env signal event e).1
        ≡ (validate_and_size env signal event (record e { sizers = [] })).1
  unfolding new_engine lookup
  calls-uncached cfg initial cs env signal event =
      validate_and_size-uncached env signal event (calls cs (new_engine cfg initial)).0
        (calls-IsCoherent cs (new_engine cfg initial) (λ s p found. cc))
