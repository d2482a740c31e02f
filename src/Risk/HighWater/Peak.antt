-- ===== src/Risk/HighWater/Peak.antt =====
-- The peak is the greatest equity that the tracker has seen.
use mathlib.Core.List.{Memᴰ}
use quant_bot.Prelude.{
  ◌≡◌, refl, sym, ap, ◌⊎◌, inl, inr, List, [], ◌∷◌, last?, some, arith, All, ◌∙◌,
}
use quant_bot.Decimal.{Decimal, IsDecimal, ◌≼◌}
use quant_bot.Decimal.Order.{le_refl, le_trans, le_of_lt}
use quant_bot.Risk.HighWater.{HighWaterMarkTracker, new_tracker, update, updates}

-- `h` is what a tracker must hold after it has seen `initial` and then `equities`.
pub record IsTracked {ℓ} {D : Type ℓ} ⦃d : Decimal D⦄ (initial : D) (equities : List D)
    (h : HighWaterMarkTracker D) : Type ℓ where
  pub bounds : All (λ e. e ≼ h.peak) (initial ∷ equities)
  pub attained : Memᴰ h.peak (initial ∷ equities)
  pub latest : last? (initial ∷ equities) ≡ some h.current

module _ {ℓ} {D : Type ℓ} ⦃d : Decimal D⦄ (laws : IsDecimal D) where
  open laws use {greater_than-eq}

  -- One call keeps the old peak as a lower bound, and the new one is the old one or the argument.
  update-peak :
      (e : D) (h : HighWaterMarkTracker D)
      → let h' = (update e h).0 in
        (h.peak ≼ h'.peak) × (e ≼ h'.peak) × ((h'.peak ≡ h.peak) ⊎ (h'.peak ≡ e)) × (h'.current ≡ e)
  unfolding update
  update-peak e h =
      ground (
        arith,
        greater_than-eq e h.peak,
        le_refl laws e,
        le_refl laws h.peak,
        le_of_lt laws h.peak e,
      )

  updates-bounds :
      (es : List D) (h : HighWaterMarkTracker D)
      → let top = (updates es h).peak in (h.peak ≼ top) × All (λ e. e ≼ top) es
  unfolding updates
  updates-bounds [] h = (le_refl laws h.peak, tt)
  updates-bounds (e ∷ es) h =
      let (old, new, _, _) = update-peak e h in
      let (up, rest) = updates-bounds es (update e h).0 in
      (le_trans laws _ _ _ old up, (le_trans laws _ _ _ new up, rest))

  updates-attained :
      (es : List D) (h : HighWaterMarkTracker D)
      → ((updates es h).peak ≡ h.peak) ⊎ Memᴰ (updates es h).peak es
  unfolding updates
  updates-attained [] h = inl refl
  updates-attained (e ∷ es) h = pick (updates-attained es (update e h).0) (update-peak e h).2
    where
      top : D
      top = (updates (e ∷ es) h).peak

      pick :
          (top ≡ (update e h).0.peak) ⊎ Memᴰ top es
          → ((update e h).0.peak ≡ h.peak) ⊎ ((update e h).0.peak ≡ e)
          → (top ≡ h.peak) ⊎ Memᴰ top (e ∷ es)
      pick (inl same) (inl old) = inl (same ∙ old)
      pick (inl same) (inr new) = inr (Memᴰ.head (same ∙ new))
      pick (inr later) _ = inr (Memᴰ.tail later)

  updates-latest :
      (e : D) (es : List D) (h : HighWaterMarkTracker D)
      → last? (e ∷ es) ≡ some (updates (e ∷ es) h).current
  unfolding updates
  updates-latest e [] h = ap some (sym (update-peak e h).3)
  updates-latest e (e' ∷ es) h = updates-latest e' es (update e h).0

  -- A tracker that starts with `initial` and sees `equities` in turn holds as its peak the greatest of
  -- all these values, which is one of them, and as its current equity the last of them.
  pub updates-IsTracked :
      (initial : D) (equities : List D)
      → IsTracked initial equities (updates equities (new_tracker initial))
  unfolding new_tracker updates
  updates-IsTracked initial equities =
      let start = new_tracker initial in
      record {
        bounds = updates-bounds equities start;
        attained = head_or_tail (updates-attained equities start);
        latest = latest_of equities;
      }
    where
      head_or_tail : {top : D} → (top ≡ initial) ⊎ Memᴰ top equities → Memᴰ top (initial ∷ equities)
      head_or_tail (inl e) = Memᴰ.head e
      head_or_tail (inr m) = Memᴰ.tail m

      latest_of :
          (es : List D) → last? (initial ∷ es) ≡ some (updates es (new_tracker initial)).current
      latest_of [] = refl
      latest_of (e ∷ es) = updates-latest e es (new_tracker initial)
