-- ===== src/Prelude/Lists.antt =====
-- Lists measured by the native numbers, under the library's names, and a predicate on all members.
use Prim.Native.Nat.{ℕ, zero, suc, ◌+◌}
use mathlib.Core.Path.{◌≡◌, refl, ap, ◌∙◌}
use mathlib.Core.List.{List, [], ◌∷◌, ◌++◌, foldl}
use mathlib.Core.Option.{Option, none, some}
use native.Mathlib.Omega.{arith}

module _ {ℓ} {A : Type ℓ} where
  abbrev pub length : List A → ℕ
  length [] = 0
  length (_ ∷ xs) = suc (length xs)

  abbrev pub drop : ℕ → List A → List A
  drop zero xs = xs
  drop (suc n) [] = []
  drop (suc n) (_ ∷ xs) = drop n xs

  -- `xs[:len(xs)-1]`
  abbrev pub init : List A → List A
  init [] = []
  init (x ∷ []) = []
  init (x ∷ (y ∷ ys)) = x ∷ init (y ∷ ys)

  -- `xs[len(xs)-1]`, where there is one
  abbrev pub last? : List A → Option A
  last? [] = none
  last? (x ∷ []) = some x
  last? (x ∷ (y ∷ ys)) = last? (y ∷ ys)

  pub length-append : (xs ys : List A) → length (xs ++ ys) ≡ length xs + length ys
  length-append [] ys = omega arith
  length-append (_ ∷ xs) ys = omega (arith, length-append xs ys)

  pub last?-append : (xs : List A) (y : A) → last? (xs ++ (y ∷ [])) ≡ some y
  last?-append [] y = refl
  last?-append (x ∷ []) y = refl
  last?-append (x ∷ (x' ∷ xs)) y = last?-append (x' ∷ xs) y

  pub init-append : (xs : List A) (y : A) → init (xs ++ (y ∷ [])) ≡ xs
  init-append [] y = refl
  init-append (x ∷ []) y = refl
  init-append (x ∷ (x' ∷ xs)) y = λ i. x ∷ init-append (x' ∷ xs) y i

  abbrev pub All {κ} : (A → Type κ) → List A → Type κ
  All P [] = Unit
  All P (x ∷ xs) = P x × All P xs

  pub All-append {κ} : (P : A → Type κ) (xs ys : List A) → All P xs → All P ys → All P (xs ++ ys)
  All-append P [] ys _ q = q
  All-append P (x ∷ xs) ys (p, ps) q = (p, All-append P xs ys ps q)

-- A property that every round of a loop keeps holds after the loop.
pub foldl_inv {ℓ κ μ} :
    {A : Type ℓ} {B : Type κ} (P : B → Type μ) (f : B → A → B)
    → ((b : B) (x : A) → P b → P (f b x))
    → (b : B) (xs : List A) → P b
    → P (foldl f b xs)
foldl_inv P f keep b [] h = h
foldl_inv P f keep b (x ∷ xs) h = foldl_inv P f keep (f b x) xs (keep b x h)

-- A loop seen through a function that every round respects.
pub foldl_fuse {ℓ κ μ} :
    {A : Type ℓ} {B : Type κ} {C : Type μ} (view : B → C) (f : B → A → B) (g : C → A → C)
    → ((b : B) (x : A) → view (f b x) ≡ g (view b) x)
    → (b : B) (xs : List A) → view (foldl f b xs) ≡ foldl g (view b) xs
foldl_fuse view f g same b [] = refl
foldl_fuse view f g same b (x ∷ xs) =
    foldl_fuse view f g same (f b x) xs ∙ ap (λ c. foldl g c xs) (same b x)
