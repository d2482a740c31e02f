-- ===== src/Decimal.antt =====
-- github.com/shopspring/decimal, the exact decimal numbers in which the whole program computes. The
-- package is not part of the repository: its type and the methods that the program calls are a
-- parameter, and `IsDecimal` states what its documentation promises of them.
pub mod Order
pub mod Units
use quant_bot.Prelude.{ℕ, ◌≡◌, ◌↔◌, Bool, true, false, not, if◌then◌else◌, ◌<◌}
use quant_bot.Prelude.Int.{ℤ, pos, ◌+ℤ◌, IsInt, min_int, max_int}

-- The methods, under the package's names. `literal v e` is `RequireFromString` of the text with the
-- digits of `v` and `e` of them behind the point, and `of_int` is `NewFromInt`.
pub record Decimal {ℓ} (D : Type ℓ) : Type ℓ where
  pub zero_dec : D
  pub of_int : ℤ → D
  pub literal : ℕ → ℕ → D
  pub add : D → D → D
  pub sub : D → D → D
  pub mul : D → D → D
  pub div : D → D → D
  pub neg : D → D
  pub abs : D → D
  pub floor : D → D
  pub ceil : D → D
  pub round : D → ℕ → D
  pub int_part : D → ℤ
  pub ulp : D  -- the last of the 16 places that a quotient keeps
  pub equal : D → D → Bool
  pub less_than : D → D → Bool
  pub less_than_or_equal : D → D → Bool
  pub greater_than : D → D → Bool
  pub greater_than_or_equal : D → D → Bool
  pub is_zero : D → Bool
  pub is_positive : D → Bool
  pub is_negative : D → Bool

infix 4 ◌≺◌ ◌≼◌
abbrev pub ◌≺◌ {ℓ} : {D : Type ℓ} ⦃d : Decimal D⦄ → D → D → Type 0
◌≺◌ ⦃d⦄ a b = d.less_than a b ≡ true

abbrev pub ◌≼◌ {ℓ} : {D : Type ℓ} ⦃d : Decimal D⦄ → D → D → Type 0
◌≼◌ ⦃d⦄ a b = d.less_than b a ≡ false

-- The integer `floor a` or `ceil a` lies in the range of a Go `int64`.
abbrev pub Fits {ℓ} : {D : Type ℓ} ⦃d : Decimal D⦄ → D → Type 0
Fits ⦃d⦄ a = (d.of_int min_int ≼ a) × (a ≼ d.of_int max_int)

-- Addition, subtraction and multiplication are exact, the comparisons are those of the numbers, a
-- division is rounded to the package's 16 places (`ulp`), and `IntPart` is an `int64`.
pub record IsDecimal {ℓ} (D : Type ℓ) ⦃d : Decimal D⦄ : Type ℓ where
  pub lt_irrefl : (a : D) → d.less_than a a ≡ false
  pub lt_trans : (a b c : D) → a ≺ b → b ≺ c → a ≺ c
  pub lt_total : (a b : D) → a ≼ b → b ≼ a → a ≡ b
  pub greater_than-eq : (a b : D) → d.greater_than a b ≡ d.less_than b a
  pub greater_than_or_equal-eq : (a b : D) → d.greater_than_or_equal a b ≡ not (d.less_than a b)
  pub less_than_or_equal-eq : (a b : D) → d.less_than_or_equal a b ≡ not (d.less_than b a)
  pub equal_iff : (a b : D) → (d.equal a b ≡ true) ↔ (a ≡ b)
  pub is_zero-eq : (a : D) → d.is_zero a ≡ d.equal a d.zero_dec
  pub is_positive-eq : (a : D) → d.is_positive a ≡ d.less_than d.zero_dec a
  pub is_negative-eq : (a : D) → d.is_negative a ≡ d.less_than a d.zero_dec
  pub add_comm : (a b : D) → d.add a b ≡ d.add b a
  pub add_assoc : (a b c : D) → d.add (d.add a b) c ≡ d.add a (d.add b c)
  pub add-zero : (a : D) → d.add a d.zero_dec ≡ a
  pub add-neg : (a : D) → d.add a (d.neg a) ≡ d.zero_dec
  pub sub-eq : (a b : D) → d.sub a b ≡ d.add a (d.neg b)
  pub mul_comm : (a b : D) → d.mul a b ≡ d.mul b a
  pub mul_assoc : (a b c : D) → d.mul (d.mul a b) c ≡ d.mul a (d.mul b c)
  pub mul-add : (a b c : D) → d.mul a (d.add b c) ≡ d.add (d.mul a b) (d.mul a c)
  pub mul-one : (a : D) → d.mul a (d.of_int (pos 1)) ≡ a
  pub add-lt : (a b c : D) → a ≺ b → d.add a c ≺ d.add b c
  pub mul_pos : (a b : D) → d.zero_dec ≺ a → d.zero_dec ≺ b → d.zero_dec ≺ d.mul a b
  pub abs-eq : (a : D) → d.abs a ≡ (if d.less_than a d.zero_dec then d.neg a else a)
  pub of_int-zero : d.of_int (pos 0) ≡ d.zero_dec
  pub of_int-one_pos : d.zero_dec ≺ d.of_int (pos 1)
  pub of_int-add : (m n : ℤ) → d.of_int (m +ℤ n) ≡ d.add (d.of_int m) (d.of_int n)
  pub literal_pos : (v e : ℕ) → 0 < v → d.zero_dec ≺ d.literal v e
  pub ulp_nonneg : d.zero_dec ≼ d.ulp
  pub div-mul_le : (a b : D) → d.zero_dec ≺ b → d.mul (d.div a b) b ≼ d.add a (d.mul d.ulp b)
  pub le-div-mul : (a b : D) → d.zero_dec ≺ b → a ≼ d.add (d.mul (d.div a b) b) (d.mul d.ulp b)
  pub div_mono : (a b c : D) → d.zero_dec ≺ c → a ≼ b → d.div a c ≼ d.div b c
  pub zero-div : (b : D) → d.zero_dec ≺ b → d.div d.zero_dec b ≡ d.zero_dec
  pub div_self : (b : D) → d.zero_dec ≺ b → d.div b b ≡ d.of_int (pos 1)
  pub floor_le : (a : D) → d.floor a ≼ a
  pub lt-floor : (a : D) → a ≺ d.add (d.floor a) (d.of_int (pos 1))
  pub le-ceil : (a : D) → a ≼ d.ceil a
  pub ceil_lt : (a : D) → d.ceil a ≺ d.add a (d.of_int (pos 1))
  pub int_part-floor : (a : D) → Fits (d.floor a) → d.of_int (d.int_part (d.floor a)) ≡ d.floor a
  pub int_part-ceil : (a : D) → Fits (d.ceil a) → d.of_int (d.int_part (d.ceil a)) ≡ d.ceil a
  pub int_part-IsInt : (a : D) → IsInt (d.int_part a)
