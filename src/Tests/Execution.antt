-- ===== src/Tests/Execution.antt =====
-- internal/execution at concrete inputs: two contracts of MES around a price of 500000 units.
use quant_bot.Prelude.{◌≡◌, refl, String, none, [], ◌∷◌, arith}
use quant_bot.Prelude.Int.{ℤ, pos, ◌+ℤ◌, ◌-ℤ◌, ◌*ℤ◌}
use quant_bot.Prelude.Dict.{lookup, insert}
use quant_bot.Decimal.Units.{units, units-IsDecimal}
use quant_bot.Types.{
  ok, err, duplicate_order, long, short, opposite, MarketEvent, OrderIntent, OrderResult, Position,
  Trade, get_instrument_spec, instrument_mes,
}
use quant_bot.Execution.Simulated.{
  SimulatedExecutor, Ids, place_order, fill_order, closed_by, opened_by, slippage_amount,
  entry_fill, handle_open_order, handle_close_order, fill_of,
}
use quant_bot.Execution.Simulated.Calls.{place, calls, place_order_twice}
use quant_bot.Execution.Simulated.Orders.{Outcome, place_order-Outcome}
use quant_bot.Execution.Simulated.RoundTrip.{round_trip}

abbrev ids : String → Ids
ids s = record { object_uuid = s; order_uuid = s }

abbrev quote : SimulatedExecutor ℤ
quote = record {
  cfg = record { slippage_ticks = pos 1; commission_per_side = pos 62; fill_delay_ms = pos 0 };
  positions = [];
  open_orders = [];
  used_order_ids = [];
  order_history = [];
  trades = [];
  current_time = 5;
  current_price = ("MES", pos 500000) ∷ [];
}

abbrev buy : OrderIntent ℤ
buy = record {
  id = "i1";
  client_order_id = "c1";
  timestamp = 5;
  symbol = "MES";
  side = long;
  contracts = pos 2;
  entry_price = pos 500000;
  stop_loss = pos 499750;
  take_profit = pos 500750;
  risk_amount = pos 100;
  signal_id = "s1";
  expires_at = 9;
}

abbrev sell : OrderIntent ℤ
sell = record buy { client_order_id = "c2"; side = short }

abbrev bought : SimulatedExecutor ℤ
bought = (place_order (ids "a") buy quote).0

abbrev sold : SimulatedExecutor ℤ
sold = (place_order (ids "b") sell bought).0

abbrev bought_fill : OrderResult ℤ
bought_fill = fill_of "a" "c1" (pos 2) (pos 500025) (pos 124) (pos 25) 5

abbrev sold_fill : OrderResult ℤ
sold_fill = fill_of "b" "c2" (pos 2) (pos 499975) (pos 124) (pos 25) 5

buys : place_order (ids "a") buy quote ≡ (bought, ok bought_fill)
unfolding place_order fill_order closed_by slippage_amount entry_fill handle_open_order
    get_instrument_spec instrument_mes lookup insert ◌*ℤ◌ ◌+ℤ◌
buys = refl

sells : place_order (ids "b") sell bought ≡ (sold, ok sold_fill)
unfolding place_order fill_order closed_by slippage_amount entry_fill handle_open_order opened_by
    opposite handle_close_order get_instrument_spec instrument_mes lookup insert ◌*ℤ◌ ◌+ℤ◌ ◌-ℤ◌
sells = refl

place_order-Outcome_example : Outcome buy quote bought (place_order (ids "a") buy quote).1
place_order-Outcome_example = place_order-Outcome (ids "a") buy quote

place_order_twice_example :
    place_order (ids "d") buy (calls (place (ids "b") sell ∷ []) bought)
    ≡ (calls (place (ids "b") sell ∷ []) bought, err duplicate_order)
place_order_twice_example =
    place_order_twice (ids "a") (ids "d") buy buy (place (ids "b") sell ∷ []) quote refl (tt, tt)

abbrev bar : MarketEvent ℤ
bar = record {
  symbol = "MES";
  timestamp = 6;
  open_price = pos 499900;
  high = pos 500900;
  low = pos 499700;
  close = pos 500000;
  volume = pos 10;
  atr = pos 125;
  std_dev = pos 3;
}

abbrev long_position : Position ℤ
long_position = opened_by "a" buy (pos 500025) 5

round_trip_example :
    let slippage = slippage_amount quote.cfg instrument_mes in
    (lookup "MES" sold.positions ≡ none)
    × ((t : Trade ℤ) × (sold.trades ≡ t ∷ [])
        × (t.contracts ≡ pos 2)
        × (t.gross_pl +ℤ (slippage +ℤ slippage) *ℤ pos 500 *ℤ pos 2 ≡ pos 0)
        × (t.net_pl ≡ t.gross_pl -ℤ pos 124))
unfolding get_instrument_spec instrument_mes closed_by lookup fill_of opposite ◌-ℤ◌ ◌+ℤ◌
round_trip_example =
    round_trip units-IsDecimal (ids "a") (ids "b") buy sell quote bought sold bought_fill sold_fill
      refl (λ e. absurd (ground (arith, e))) refl refl buys sells
