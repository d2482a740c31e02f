-- ===== src/Strategy/Combined/Laws.antt =====
-- What the strategies of internal/strategy/strategy.go that run together answer.
use quant_bot.Prelude.{
  ℕ, String, suc, ◌+◌, ◌<◌, ◌≡◌, ◌≢◌, refl, inl, inr, true, false, List, [], ◌∷◌, ◌++◌, arith,
  length, map,
}
use quant_bot.Types.{Result, ok, ◌>>=◌, Result-cases, Signal, MarketEvent}
use quant_bot.Strategy.Combined.{Looks, Strategy, new_multi_strategy, run_from, on_market_event}

shift : (k i : ℕ) → suc k + i ≡ k + suc i
shift k i = omega arith

zero-add : (n : ℕ) → 0 + n ≡ n
zero-add n = omega arith

module _ {ℓ} {A : Type ℓ} where
  -- The lists one after the other.
  abbrev pub concat : List (List A) → List A
  concat [] = []
  concat (xs ∷ rest) = xs ++ concat rest

module _ {ℓ} {D : Type ℓ} {S : Type ℓ} (strategy : Strategy D S) where
  open strategy use {on_event}

  -- Every strategy answers the bar from its own state.
  unfoldable pub answers : Looks → MarketEvent D → List S → Result (List (S × List (Signal D)))
  answers looks event [] = ok []
  answers looks event (s ∷ rest) =
      on_event looks event s >>= λ first. answers looks event rest >>= λ others. ok (first ∷ others)

  run_from-answers :
      (k : ℕ) (looks : Looks) (event : MarketEvent D) (asked left : List S)
      → ((i : ℕ) → i < length asked → looks (k + i) ≡ false)
      → (left ≢ [] → looks (k + length asked) ≡ true)
      → run_from strategy k looks event (asked ++ left) ≡ (
          answers looks event asked >>= λ rs.
          ok (map (λ r. r.0) rs ++ left, concat (map (λ r. r.1) rs)))
  unfolding run_from answers
  run_from-answers k looks event [] [] live done = refl
  run_from-answers k looks event [] (s ∷ left) live done =
      let stop : looks k ≡ true = ground (arith, done) in rw stop refl
  run_from-answers k looks event (s ∷ asked) left live done =
      let open_now : looks k ≡ false = ground (arith, live 0) in
      let rest =
        run_from-answers (suc k) looks event asked left
          (λ i h. rw (shift k i) (live (suc i) (omega arith)))
          (λ some_left. rw (shift k (length asked)) (done some_left)) in
      elim (Result-cases (on_event looks event s)) [
        | inr (inl (reason, e)) ↦ rw (open_now, e) refl
        | inr (inr e) ↦ rw (open_now, e) refl
        | inl (first, e) ↦
            rw (open_now, e, rest)
              (elim (Result-cases (answers looks event asked)) [
                | inl (others, f) ↦ rw f refl
                | inr (inl (reason, f)) ↦ rw f refl
                | inr (inr f) ↦ rw f refl
              ])
      ]

  -- A call that finds its context open at its first looks asks as many strategies, in their order,
  -- for their answers to the bar, and gives all of their signals in that order. A context that is
  -- done at the next look leaves the other strategies as they are.
  pub on_market_event-answers :
      (looks : Looks) (event : MarketEvent D) (name : String) (asked left : List S)
      → ((i : ℕ) → i < length asked → looks i ≡ false)
      → (left ≢ [] → looks (length asked) ≡ true)
      → on_market_event strategy looks event (new_multi_strategy name (asked ++ left)) ≡ (
          answers looks event asked >>= λ rs.
          ok (new_multi_strategy name (map (λ r. r.0) rs ++ left), concat (map (λ r. r.1) rs)))
  unfolding on_market_event new_multi_strategy
  on_market_event-answers looks event name asked left live done =
      let loop =
        run_from-answers 0 looks event asked left (λ i h. rw (zero-add i) (live i h))
          (λ some_left. rw (zero-add (length asked)) (done some_left)) in
      rw loop (elim (Result-cases (answers looks event asked)) [
        | inl (others, f) ↦ rw f refl
        | inr (inl (reason, f)) ↦ rw f refl
        | inr (inr f) ↦ rw f refl
      ])
