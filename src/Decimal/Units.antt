-- ===== src/Decimal/Units.antt =====
-- A type that meets the laws of `IsDecimal`: whole numbers, with a division that rounds down, so
-- that `ulp` is one unit. A literal keeps its digits and drops its point, so a price in the tests
-- counts hundredths.
use quant_bot.Prelude.{ℕ, ◌*◌, ◌/◌, ◌<◌, ◌≤◌, ◌≡◌, refl, ap, Bool, false, not, arith, if◌then◌else◌}
use quant_bot.Prelude.Int.{
  ℤ, pos, negsuc, pos_part, neg_part, ◌+ℤ◌, ◌*ℤ◌, neg_ℤ, ltb_ℤ, int_laws, product_laws, pos_part-*ℤ,
  neg_part-*ℤ, eq_of_parts, +ℤ_parts, wrap, wrap-of_IsInt, wrap-IsInt,
}
use native.Mathlib.Nat.{le-div_iff_mul-le, div-mul-le_self}
use quant_bot.Decimal.{Decimal, IsDecimal, ◌≺◌, ◌≼◌}

-- Rounds down for a positive divisor.
unfoldable pub floor_div : ℤ → ℤ → ℤ
floor_div (pos n) (pos m) = pos (n / m)
floor_div (negsuc n) (pos m) = negsuc (n / m)
floor_div a (negsuc m) = pos 0

abbrev equal_ℤ : ℤ → ℤ → Bool
equal_ℤ a b = if ltb_ℤ a b then false else not (ltb_ℤ b a)

instance abbrev pub units : Decimal ℤ
units = record {
  zero_dec = pos 0;
  of_int = λ n. n;
  literal = λ v e. pos v;
  add = ◌+ℤ◌;
  sub = λ a b. a +ℤ neg_ℤ b;
  mul = ◌*ℤ◌;
  div = floor_div;
  neg = neg_ℤ;
  abs = λ a. if ltb_ℤ a (pos 0) then neg_ℤ a else a;
  floor = λ a. a;
  ceil = λ a. a;
  round = λ a n. a;
  int_part = wrap;
  ulp = pos 1;
  equal = equal_ℤ;
  less_than = ltb_ℤ;
  less_than_or_equal = λ a b. not (ltb_ℤ b a);
  greater_than = λ a b. ltb_ℤ b a;
  greater_than_or_equal = λ a b. not (ltb_ℤ a b);
  is_zero = λ a. equal_ℤ a (pos 0);
  is_positive = λ a. ltb_ℤ (pos 0) a;
  is_negative = λ a. ltb_ℤ a (pos 0);
}

*ℤ_comm : (a b : ℤ) → a *ℤ b ≡ b *ℤ a
*ℤ_comm a b = eq_of_parts _ _ (simp product_laws (omega arith))

*ℤ_assoc : (a b c : ℤ) → a *ℤ b *ℤ c ≡ a *ℤ (b *ℤ c)
*ℤ_assoc a b c = eq_of_parts _ _ (simp product_laws (omega arith))

*ℤ-+ℤ : (a b c : ℤ) → a *ℤ (b +ℤ c) ≡ a *ℤ b +ℤ a *ℤ c
*ℤ-+ℤ a b c = eq_of_parts _ _ (
    simp product_laws (
      omega (
        arith,
        simp product_laws at (+ℤ_parts (a *ℤ b) (a *ℤ c)),
        ap (λ (t : ℕ). pos_part a * t) (+ℤ_parts b c),
        ap (λ (t : ℕ). neg_part a * t) (+ℤ_parts b c),
      )))

*ℤ-one : (a : ℤ) → a *ℤ pos 1 ≡ a
*ℤ-one a = eq_of_parts _ _ (simp product_laws (omega arith))

mul_pos_ℕ : (m n : ℕ) → 0 < m → 0 < n → 0 < m * n
mul_pos_ℕ m n p q = grind arith

*ℤ_pos : (a b : ℤ) → pos 0 ≺ a → pos 0 ≺ b → pos 0 ≺ a *ℤ b
*ℤ_pos (pos m) (pos n) p q =
    ground (arith, pos_part-*ℤ (pos m) (pos n), neg_part-*ℤ (pos m) (pos n), mul_pos_ℕ m n)
*ℤ_pos (pos m) (negsuc n) p q = ground arith
*ℤ_pos (negsuc m) b p q = ground arith

floor_div-mul_le : (a b : ℤ) → pos 0 ≺ b → floor_div a b *ℤ b ≼ a +ℤ pos 1 *ℤ b
unfolding floor_div ◌+ℤ◌ ◌*ℤ◌
floor_div-mul_le (pos n) (pos m) h = ground arith
floor_div-mul_le (negsuc n) (pos m) h = ground arith
floor_div-mul_le a (negsuc m) h = ground arith

le-floor_div-mul : (a b : ℤ) → pos 0 ≺ b → a ≼ floor_div a b *ℤ b +ℤ pos 1 *ℤ b
unfolding floor_div ◌+ℤ◌ ◌*ℤ◌
le-floor_div-mul (pos n) (pos m) h = ground arith
le-floor_div-mul (negsuc n) (pos m) h = ground arith
le-floor_div-mul a (negsuc m) h = ground arith

div_mono_ℕ : (a b c : ℕ) → 0 < c → a ≤ b → a / c ≤ b / c
div_mono_ℕ a b c p h = (le-div_iff_mul-le p).1 (omega (arith, div-mul-le_self a c))

floor_div_mono : (a b c : ℤ) → pos 0 ≺ c → a ≼ b → floor_div a c ≼ floor_div b c
unfolding floor_div
floor_div_mono (pos n) (pos k) (pos m) h e = ground (arith, div_mono_ℕ n k m)
floor_div_mono (pos n) (negsuc k) (pos m) h e = ground arith
floor_div_mono (negsuc n) (pos k) (pos m) h e = ground arith
floor_div_mono (negsuc n) (negsuc k) (pos m) h e = ground (arith, div_mono_ℕ k n m)
floor_div_mono a b (negsuc m) h e = ground arith

zero-floor_div : (b : ℤ) → pos 0 ≺ b → floor_div (pos 0) b ≡ pos 0
unfolding floor_div
zero-floor_div (pos m) h = ground arith
zero-floor_div (negsuc m) h = ground arith

floor_div_self : (b : ℤ) → pos 0 ≺ b → floor_div b b ≡ pos 1
unfolding floor_div
floor_div_self (pos m) h = ap pos (grind arith)
floor_div_self (negsuc m) h = ground arith

pub units-IsDecimal : IsDecimal ℤ
unfolding ◌+ℤ◌
units-IsDecimal = record {
  lt_irrefl = λ a. ground arith;
  lt_trans = λ a b c p q. ground arith;
  lt_total = λ a b p q. ground arith;
  greater_than-eq = λ a b. refl;
  greater_than_or_equal-eq = λ a b. refl;
  less_than_or_equal-eq = λ a b. refl;
  equal_iff = λ a b. (ground arith, ground arith);
  is_zero-eq = λ a. refl;
  is_positive-eq = λ a. refl;
  is_negative-eq = λ a. refl;
  add_comm = λ a b. omega int_laws;
  add_assoc = λ a b c. omega int_laws;
  add-zero = λ a. omega int_laws;
  add-neg = λ a. ground arith;
  sub-eq = λ a b. refl;
  mul_comm = *ℤ_comm;
  mul_assoc = *ℤ_assoc;
  mul-add = *ℤ-+ℤ;
  mul-one = *ℤ-one;
  add-lt = λ a b c h. ground arith;
  mul_pos = *ℤ_pos;
  abs-eq = λ a. refl;
  of_int-zero = refl;
  of_int-one_pos = refl;
  of_int-add = λ m n. refl;
  literal_pos = λ v e h. ground arith;
  ulp_nonneg = refl;
  div-mul_le = floor_div-mul_le;
  le-div-mul = le-floor_div-mul;
  div_mono = floor_div_mono;
  zero-div = zero-floor_div;
  div_self = floor_div_self;
  floor_le = λ a. ground arith;
  lt-floor = λ a. ground arith;
  le-ceil = λ a. ground arith;
  ceil_lt = λ a. ground arith;
  int_part-floor = λ a h. wrap-of_IsInt a (ground arith, ground arith);
  int_part-ceil = λ a h. wrap-of_IsInt a (ground arith, ground arith);
  int_part-IsInt = λ a. wrap-IsInt a;
}
