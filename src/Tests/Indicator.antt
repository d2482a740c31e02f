-- ===== src/Tests/Indicator.antt =====
-- pkg/indicator at concrete inputs.
use quant_bot.Prelude.{◌≡◌, refl, List, [], ◌∷◌}
use quant_bot.Prelude.Int.{ℤ, pos, negsuc, ◌+ℤ◌, ◌*ℤ◌, ◌-ℤ◌}
use quant_bot.Types.{ok, ◌>>=◌}
use quant_bot.Tests.Roots.{units-HasRoots}
use quant_bot.Decimal.Units.{units, units-IsDecimal, floor_div}
use quant_bot.Indicator.Window.{Window, at_least_one, slide, mean}
use quant_bot.Indicator.Sma.{new_sma, updates, current, mean_of, updates-mean}
use quant_bot.Indicator.Atr as Atr
use quant_bot.Indicator.Calculator as Calculator
use quant_bot.Indicator.StdDev.{
  StdDev, new_std_dev, updates_std_dev, current_std_dev, sqrt, squares_around, updates_std_dev-eq,
}

abbrev closes : List ℤ
closes = pos 10 ∷ pos 20 ∷ pos 30 ∷ pos 40 ∷ []

averages : updates closes (new_sma (pos 3)) >>= current ≡ ok (pos 30)
unfolding current updates new_sma at_least_one slide mean floor_div ◌*ℤ◌ ◌+ℤ◌ ◌-ℤ◌
averages = refl

updates-mean_example :
    (s : Window ℤ) × (updates closes (new_sma (pos 3)) ≡ ok s)
    × (s.values ≡ pos 20 ∷ pos 30 ∷ pos 40 ∷ [])
    × (current s ≡ ok (mean_of 3 closes))
updates-mean_example = updates-mean units-IsDecimal 2 closes

abbrev bars : List (Atr.Bar ℤ)
bars = (pos 110, pos 100, pos 105) ∷ (pos 125, pos 115, pos 120) ∷ []

updates_std_dev-eq_example :
    (s : StdDev ℤ) × (updates_std_dev closes (new_std_dev (pos 3)) ≡ ok s)
    × (current_std_dev s
        ≡ sqrt
            (units.div (squares_around (mean_of 3 closes) (pos 20 ∷ pos 30 ∷ pos 40 ∷ [])) (pos 3)))
updates_std_dev-eq_example = updates_std_dev-eq units-IsDecimal units-HasRoots 2 closes

-- Periods that count as 1.
new_calculator-IsTotal_example : Calculator.IsTotal {D = ℤ} (
    Calculator.new_calculator
      (record { atr_period = pos 0; std_dev_period = negsuc 4; sma_period = pos 3 }))
new_calculator-IsTotal_example =
    Calculator.new_calculator-IsTotal units-IsDecimal units-HasRoots
      (record { atr_period = pos 0; std_dev_period = negsuc 4; sma_period = pos 3 })
