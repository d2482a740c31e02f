-- ===== src/Tests/Roots.antt =====
-- The square root of pkg/indicator/stddev.go over whole numbers: no guess is ever zero.
use quant_bot.Prelude.{
  ℕ, zero, suc, ◌+◌, ◌/◌, ◌<◌, ◌≤◌, ◌≡◌, refl, ◌∙◌, Bool, arith, false, true, if◌then◌else◌,
}
use quant_bot.Prelude.Int.{ℤ, pos, negsuc, ◌+ℤ◌}
use native.Mathlib.Nat.{le-div_iff_mul-le}
use quant_bot.Decimal.Units.{units, floor_div}
use quant_bot.Types.{Result, ok, checked_div}
use quant_bot.Indicator.StdDev.{newton, sqrt, HasRoots}

div_pos : (a b : ℕ) → 0 < b → b ≤ a → 0 < a / b
div_pos a b p h = (le-div_iff_mul-le p).1 (omega (arith, h))

-- The next guess from a positive one is positive.
next_guess_pos : (x g : ℕ) → 0 < (suc g + suc x / suc g) / 2
next_guess_pos x zero =
    div_pos (1 + suc x / 1) 2 (omega arith)
      (omega (arith, div_pos (suc x) 1 (omega arith) (omega arith)))
next_guess_pos x (suc g) = div_pos (suc (suc g) + suc x / suc (suc g)) 2 (omega arith) (omega arith)

divides : (x g : ℕ) → checked_div (pos (suc x)) (pos (suc g)) ≡ ok (pos (suc x / suc g))
unfolding floor_div
divides x g = ground arith

averages : (g q : ℕ) → floor_div (pos (suc g) +ℤ pos q) (pos 2) ≡ pos ((suc g + q) / 2)
unfolding floor_div ◌+ℤ◌
averages g q = ground arith

if-ok : (b : Bool) (r : Result ℤ) (y z : ℤ) → r ≡ ok z → (w : ℤ) × ((if b then ok y else r) ≡ ok w)
if-ok true r y z e = (y, refl)
if-ok false r y z e = (z, e)

newton-ok : (rounds x g : ℕ) → 0 < g → (y : ℤ) × (newton rounds (pos (suc x)) (pos g) ≡ ok y)
unfolding newton
newton-ok zero x g h = (pos g, refl)
newton-ok (suc rounds) x zero h = absurd (ground (arith, h))
newton-ok (suc rounds) x (suc g) h =
    let (y, rest) = newton-ok rounds x ((suc g + suc x / suc g) / 2) (next_guess_pos x g) in
    rw (divides x g, averages g (suc x / suc g)) (if-ok _ _ _ y rest)

is_zero-pos : (m : ℕ) → 0 < m → units.is_zero (pos m) ≡ false
is_zero-pos m h = ground arith

is_negative-pos : (m : ℕ) → units.is_negative (pos m) ≡ false
is_negative-pos m = ground arith

sqrt-eq : (n : ℕ) → (g : ℕ) × (0 < g) × (sqrt (pos (suc n)) ≡ newton 100 (pos (suc n)) (pos g))
unfolding sqrt floor_div
sqrt-eq zero = (1, omega arith, refl)
sqrt-eq (suc n) =
    let half = div_pos (suc (suc n)) 2 (omega arith) (omega arith) in
    (
      suc (suc n) / 2,
      half,
      rw
          (
            is_zero-pos (suc (suc n)) (omega arith),
            is_negative-pos (suc (suc n)),
            is_zero-pos (suc (suc n) / 2) half,
          )
          refl,
    )

pub units-HasRoots : HasRoots ℤ
unfolding HasRoots
units-HasRoots (pos zero) = (pos 0, unfold sqrt in refl)
units-HasRoots (negsuc n) = (pos 0, unfold sqrt in ground arith)
units-HasRoots (pos (suc n)) =
    let (g, h, e) = sqrt-eq n in let (y, rooted) = newton-ok 100 n g h in (y, e ∙ rooted)
