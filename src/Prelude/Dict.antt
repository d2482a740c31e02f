-- ===== src/Prelude/Dict.antt =====
-- Go's `map[string]V` as an association list. The list keeps an order that Go's map does not have;
-- what iterates over a map is stated for every order of the entries.
use quant_bot.Prelude.Bools.{if◌then◌else◌, Bool-cases}
use Prim.Native.String.{String}
use mathlib.Core.Path.{◌≡◌, refl}
use mathlib.Core.Logic.{◌≢◌, inl, inr}
use mathlib.Core.Bool.{true, false}
use mathlib.Core.Option.{Option, none, some}
use mathlib.Core.List.{List, [], ◌∷◌}
use native.Mathlib.Omega.{arith}
use text.Mathlib.Text.{◌==◌ as str_eq}
use text.Mathlib.TextEquality.{eq_iff}

abbrev pub Dict {ℓ} : Type ℓ → Type ℓ
Dict V = List (String × V)

module _ {ℓ} {V : Type ℓ} where
  -- `v, ok := m[key]`
  unfoldable pub lookup : String → Dict V → Option V
  lookup key [] = none
  lookup key ((name, value) ∷ rest) = if str_eq name key then some value else lookup key rest

  -- `m[key] = fresh`
  unfoldable pub insert : String → V → Dict V → Dict V
  insert key fresh [] = (key, fresh) ∷ []
  insert key fresh ((name, value) ∷ rest) =
      if str_eq name key then (key, fresh) ∷ rest else (name, value) ∷ insert key fresh rest

  -- `delete(m, key)`
  unfoldable pub erase : String → Dict V → Dict V
  erase key [] = []
  erase key ((name, value) ∷ rest) =
      if str_eq name key then erase key rest else (name, value) ∷ erase key rest

  pub lookup-insert :
      (key other : String) (fresh : V) (m : Dict V)
      → lookup other (insert key fresh m)
        ≡ (if str_eq key other then some fresh else lookup other m)
  unfolding lookup insert
  lookup-insert key other fresh [] = refl
  lookup-insert key other fresh ((name, value) ∷ rest) = ground (
    arith,
    eq_iff name key,
    eq_iff name other,
    eq_iff key other,
    lookup-insert key other fresh rest,
  )

  pub lookup-erase :
      (key other : String) (m : Dict V)
      → lookup other (erase key m) ≡ (if str_eq key other then none else lookup other m)
  unfolding lookup erase
  lookup-erase key other [] = elim (Bool-cases (str_eq key other)) [ inl e ↦ rw e | inr e ↦ rw e ]
  lookup-erase key other ((name, value) ∷ rest) =
      ground
        (arith, eq_iff name key, eq_iff name other, eq_iff key other, lookup-erase key other rest)

  pub insert-insert :
      (key : String) (v w : V) (m : Dict V) → insert key v (insert key w m) ≡ insert key v m
  unfolding insert
  insert-insert key v w [] = ground (arith, eq_iff key key)
  insert-insert key v w ((name, value) ∷ rest) =
      ground (arith, eq_iff key key, eq_iff name key, insert-insert key v w rest)

  -- No key is listed twice, as in a Go map.
  unfoldable pub IsMap : Dict V → Type ℓ
  IsMap [] = Unit
  IsMap ((j, w) ∷ m) = (lookup j m ≡ none) × IsMap m

pub str_eq_refl : (s : String) → str_eq s s ≡ true
str_eq_refl s = (eq_iff s s).1 refl

pub str_eq-false : (s t : String) → s ≢ t → str_eq s t ≡ false
str_eq-false s t h = ground (arith, eq_iff s t)
