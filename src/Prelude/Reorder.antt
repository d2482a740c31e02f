-- ===== src/Prelude/Reorder.antt =====
-- What does not depend on the order in which a Go map is iterated: lookups, the uniqueness of keys,
-- and a loop whose rounds may be exchanged.
use mathlib.Core.List.{Permᴰ, List, ◌∷◌, foldl}
use mathlib.Core.Path.{◌≡◌, refl, sym, ap, subst, subst₂, ◌∙◌}
use mathlib.Core.Option.{some}
use native.Mathlib.Omega.{arith}
use Prim.Native.String.{String}
use text.Mathlib.Text.{◌==◌ as str_eq}
use text.Mathlib.TextEquality.{eq_iff}
use quant_bot.Prelude.Bools.{if◌then◌else◌}
use quant_bot.Prelude.Dict.{Dict, lookup, IsMap}

pub foldl-Permᴰ {ℓ κ} :
    {A : Type ℓ} {B : Type κ} (f : B → A → B)
    → ((b : B) (x y : A) → f (f b x) y ≡ f (f b y) x)
    → {xs ys : List A} → Permᴰ xs ys
    → (b : B) → foldl f b xs ≡ foldl f b ys
foldl-Permᴰ f comm Permᴰ.nil b = refl
foldl-Permᴰ f comm (Permᴰ.cons {b = y} {l₁ = l} e p) b =
    ap (λ t. foldl f (f b t) l) e ∙ foldl-Permᴰ f comm p (f b y)
foldl-Permᴰ f comm (Permᴰ.swap {a = x} {b = y} {l = l} e e') b =
    ap (λ t. foldl f t l) (comm b x y) ∙ (λ i. foldl f (f (f b (e' i)) (e i)) l)
foldl-Permᴰ f comm (Permᴰ.trans p q) b = foldl-Permᴰ f comm p b ∙ foldl-Permᴰ f comm q b

module _ {ℓ} {V : Type ℓ} where
  lookup_swap :
      (s : String) (a b : String × V) (l : Dict V)
      → IsMap (a ∷ (b ∷ l))
      → lookup s (a ∷ (b ∷ l)) ≡ lookup s (b ∷ (a ∷ l))
  unfolding lookup IsMap
  lookup_swap s a b l h = ground (arith, eq_iff a.0 s, eq_iff b.0 s, eq_iff b.0 a.0)

  IsMap-swap : (a b : String × V) (l : Dict V) → IsMap (a ∷ (b ∷ l)) → IsMap (b ∷ (a ∷ l))
  unfolding lookup IsMap
  IsMap-swap a b l (fresh, (other, rest)) = (
    ground (arith, eq_iff a.0 b.0, eq_iff b.0 a.0),
    (ground (arith, eq_iff a.0 b.0, eq_iff b.0 a.0), rest),
  )

  IsMap-tail : (a : String × V) (m : Dict V) → IsMap (a ∷ m) → IsMap m
  unfolding IsMap
  IsMap-tail a m h = h.1

  IsMap-head :
      (a : String × V) (m n : Dict V)
      → ((s : String) → lookup s m ≡ lookup s n)
      → IsMap (a ∷ m)
      → IsMap n
      → IsMap (a ∷ n)
  unfolding IsMap
  IsMap-head a m n same h rest = (sym (same a.0) ∙ h.0, rest)

  lookup_head :
      (s : String) (a : String × V) (m n : Dict V)
      → lookup s m ≡ lookup s n
      → lookup s (a ∷ m) ≡ lookup s (a ∷ n)
  unfolding lookup
  lookup_head s a m n e i = if str_eq a.0 s then some a.1 else e i

  -- Another order of the entries is a map too, with the same value at every key.
  pub IsMap-Permᴰ :
      {m n : Dict V} → Permᴰ m n → IsMap m → IsMap n × ((s : String) → lookup s m ≡ lookup s n)
  IsMap-Permᴰ Permᴰ.nil h = (h, λ s. refl)
  IsMap-Permᴰ (Permᴰ.cons {a = a} {b = b} {l₁ = m} {l₂ = n} e p) h =
      let (rest, same) = IsMap-Permᴰ p (IsMap-tail a m h) in
      (
        subst (λ x. IsMap (x ∷ n)) e (IsMap-head a m n same h rest),
        λ s. lookup_head s a m n (same s) ∙ ap (λ x. lookup s (x ∷ n)) e,
      )
  IsMap-Permᴰ (Permᴰ.swap {a = a} {b = b} {l = l} e e') h = (
    subst₂ (λ x y. IsMap (x ∷ (y ∷ l))) e' e (IsMap-swap a b l h),
    λ s. lookup_swap s a b l h ∙ (λ i. lookup s (e' i ∷ (e i ∷ l))),
  )
  IsMap-Permᴰ (Permᴰ.trans p q) h =
      let (middle, first) = IsMap-Permᴰ p h in
      let (last, second) = IsMap-Permᴰ q middle in (last, λ s. first s ∙ second s)
