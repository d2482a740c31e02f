-- ===== src/Tests/Intents.antt =====
-- An intent of the risk engine in the simulated executor.
use quant_bot.Prelude.{◌≡◌, refl, [], ◌∷◌}
use quant_bot.Prelude.Int.{ℤ, pos, ◌≤ℤ◌}
use quant_bot.Prelude.Dict.{lookup}
use quant_bot.Decimal.Units.{units, units-IsDecimal}
use quant_bot.Types.{ok, OrderResult}
use quant_bot.Execution.Simulated.{
  SimulatedExecutor, Ids, new_simulated_executor, default_simulated_config, place_order,
}
use quant_bot.Execution.Simulated.Orders.{IsFilled}
use quant_bot.Execution.Intents.{issued-IsFilled}
use quant_bot.Tests.Risk.{env, signal, event, trading, served, intent, validates}

abbrev opening : SimulatedExecutor ℤ
opening = record (new_simulated_executor default_simulated_config) {
  current_price = ("MES", pos 500000) ∷ [];
}

abbrev fill_ids : Ids
fill_ids = record { object_uuid = "a"; order_uuid = "b" }

issued-IsFilled_example :
    (s : SimulatedExecutor ℤ) × (r : OrderResult ℤ) × (place_order fill_ids intent opening
      ≡ (s, ok r))
    × IsFilled intent r opening s
    × (pos 1 ≤ℤ r.filled_qty)
unfolding new_simulated_executor lookup
issued-IsFilled_example =
    issued-IsFilled units-IsDecimal env signal event trading served intent fill_ids opening
      (pos 500000) validates refl refl
