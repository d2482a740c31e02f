-- ===== src/Tests/Risk.antt =====
-- internal/risk at concrete inputs: an account of 100000 units, a tick value of 125 units.
use mathlib.Core.List.{Permᴰ}
use quant_bot.Prelude.{◌≡◌, refl, String, true, false, none, List, [], ◌∷◌, arith, All}
use quant_bot.Prelude.Int.{ℤ, pos, negsuc, ◌+ℤ◌, ◌*ℤ◌, wrap}
use quant_bot.Prelude.Dict.{Dict, lookup, insert, IsMap}
use quant_bot.Decimal.{◌≺◌, ◌≼◌}
use quant_bot.Decimal.Units.{units, units-IsDecimal, floor_div}
use quant_bot.Types.{
  ok, Signal, MarketEvent, OrderIntent, Position, long, get_instrument_spec, instrument_mes,
  InstrumentSpec,
}
use quant_bot.Risk.HighWater.{new_tracker, update, updates, drawdown}
use quant_bot.Risk.HighWater.Peak.{IsTracked, updates-IsTracked}
use quant_bot.Risk.Sizer.{
  PositionSizer, calculate, calculate_with_details, tick_risk, new_position_sizer_for_symbol,
}
use quant_bot.Risk.Sizer.Bounds.{calculate_bounds}
use quant_bot.Risk.Sizer.Details.{calculate_with_details_risk}
use quant_bot.Risk.Engine.{
  Config, Engine, Env, new_engine, enter_safe_mode_locked, get_or_create_sizer, size_order,
  stop_distance, symbol_margin, total_margin, add_position_margin, generate_client_order_id,
  validate_and_size, check_exposure_limits,
}
use quant_bot.Risk.Engine.Calls.{Call, equity, position, validate, calls, calls_safe, calls_breach}
use quant_bot.Risk.Engine.Sizers.{calls-uncached}
use quant_bot.Risk.Engine.Approval.{IsApproved, validate_and_size-IsApproved}
use quant_bot.Risk.Engine.Exposure.{check_exposure_limits-Permᴰ}

abbrev equities : List ℤ
equities = pos 120 ∷ pos 90 ∷ pos 110 ∷ []

updates-IsTracked_example : IsTracked (pos 100) equities (updates equities (new_tracker (pos 100)))
updates-IsTracked_example = updates-IsTracked units-IsDecimal (pos 100) equities

abbrev sizer : PositionSizer ℤ
sizer = record { tick_value = pos 125 }

sized : calculate sizer (pos 100000) (pos 1) (pos 10) ≡ pos 80
unfolding calculate floor_div wrap ◌*ℤ◌
sized = refl

calculate_bounds_example :
    let n = calculate sizer (pos 100000) (pos 1) (pos 10) in
    (n *ℤ tick_risk sizer (pos 10) ≼ pos 100000 *ℤ pos 1 +ℤ pos 1 *ℤ tick_risk sizer (pos 10))
    × (pos 100000 *ℤ pos 1
        ≺ (n +ℤ pos 1) *ℤ tick_risk sizer (pos 10) +ℤ pos 1 *ℤ tick_risk sizer (pos 10))
unfolding floor_div ◌*ℤ◌
calculate_bounds_example =
    calculate_bounds units-IsDecimal sizer (pos 100000) (pos 1) (pos 10) refl refl refl
      (omega arith) (refl, refl)

calculate_with_details_risk_example :
    let r = calculate_with_details sizer (pos 100000) (pos 1) (pos 10) (pos 500000) long (pos 25) in
    (r.valid ≡ true → r.risk_amount ≼ pos 100000 *ℤ pos 1 +ℤ pos 1 *ℤ tick_risk sizer (pos 10))
    × (r.valid ≡ false → (r.contracts ≡ pos 0) × (r.risk_amount ≡ pos 0))
unfolding floor_div ◌*ℤ◌
calculate_with_details_risk_example =
    calculate_with_details_risk units-IsDecimal sizer (pos 100000) (pos 1) (pos 10) (pos 500000)
      long (pos 25) refl (refl, refl)

abbrev config : Config ℤ
config = record {
  max_global_drawdown_pct = pos 1;
  risk_per_trade_pct = pos 1;
  max_exposure_per_symbol_pct = pos 1;
  max_total_exposure_pct = pos 1;
  stop_loss_atr_multiple = pos 2;
  take_profit_atr_multiple = pos 6;
}

abbrev pub env : Env
env = record {
  context_is_done = false;
  intent_uuid = "intent";
  client_stamp = "20240102-150405";
  client_uuid = "0123456789ab";
  now = 7;
  expiry_base = 8;
  safe_mode_now = 9;
}

abbrev pub signal : Signal ℤ
signal = record {
  id = "s1";
  timestamp = 5;
  symbol = "MES";
  direction = long;
  strength = pos 0;
  stop_ticks = pos 0;
  take_profit_atr = pos 0;
  reason = "";
  strategy_name = "grid";
}

abbrev pub event : MarketEvent ℤ
event = record {
  symbol = "MES";
  timestamp = 5;
  open_price = pos 499900;
  high = pos 500100;
  low = pos 499800;
  close = pos 500000;
  volume = pos 10;
  atr = pos 125;
  std_dev = pos 3;
}

abbrev position_in : String → ℤ → Position ℤ
position_in symbol n = record {
  id = "p";
  symbol = symbol;
  side = long;
  contracts = n;
  entry_price = pos 400;
  entry_time = 1;
  stop_loss = pos 0;
  take_profit = pos 0;
  unrealized_pl = pos 0;
  realized_pl = pos 0;
}

abbrev held : Dict (Position ℤ)
held = ("MGC", position_in "MGC" (pos 2)) ∷ ("MES", position_in "MES" (pos 1)) ∷ []

abbrev turned : Dict (Position ℤ)
turned = ("MES", position_in "MES" (pos 1)) ∷ ("MGC", position_in "MGC" (pos 2)) ∷ []

abbrev pub trading : Engine ℤ
trading = record {
  cfg = config;
  hwm = record { peak = pos 100000; current = pos 100000 };
  sizers = [];
  positions = held;
  safe_mode = false;
  safe_mode_at = 0;
}

-- The stop distance is 2 * 125 / 25 = 10 ticks, and 80 contracts risk 80 * 10 * 125.
abbrev pub intent : OrderIntent ℤ
intent = record {
  id = "intent";
  client_order_id = "20240102-150405-01234567";
  timestamp = 7;
  symbol = "MES";
  side = long;
  contracts = pos 80;
  entry_price = pos 500000;
  stop_loss = pos 499750;
  take_profit = pos 500750;
  risk_amount = pos 100000;
  signal_id = "s1";
  expires_at = 300_000_000_008;
}

abbrev pub served : Engine ℤ
served = record trading { sizers = ("MES", sizer) ∷ [] }

pub validates : validate_and_size env signal event trading ≡ (served, ok intent)
unfolding validate_and_size enter_safe_mode_locked get_or_create_sizer size_order stop_distance
    check_exposure_limits symbol_margin total_margin add_position_margin drawdown
    calculate_with_details calculate new_position_sizer_for_symbol get_instrument_spec
    generate_client_order_id lookup insert floor_div wrap ◌*ℤ◌ ◌+ℤ◌
validates = refl

validate_and_size-IsApproved_example :
    (trading.safe_mode ≡ false)
    × (drawdown trading.hwm ≺ pos 1)
    × (served ≡ record trading { sizers = served.sizers })
    × ((spec : InstrumentSpec ℤ) × (stop : ℤ) × IsApproved signal event trading spec stop intent)
validate_and_size-IsApproved_example =
    validate_and_size-IsApproved units-IsDecimal env signal event trading served intent validates

abbrev stopped : Engine ℤ
stopped = record trading { safe_mode = true }

abbrev later : List (Call ℤ)
later =
    equity 3 (pos 100000) ∷ validate env signal event ∷ position (position_in "MES" (pos 0)) ∷ []

calls_safe_example :
    ((calls later stopped).0.safe_mode ≡ true) × All (λ i. i ≡ none) (calls later stopped).1
calls_safe_example = calls_safe later stopped (tt, (tt, (tt, tt))) refl

calls_breach_example :
    ((calls (equity 2 (negsuc 0) ∷ later) trading).0.safe_mode ≡ true)
    × All (λ i. i ≡ none) (calls (equity 2 (negsuc 0) ∷ later) trading).1
unfolding drawdown update floor_div ◌+ℤ◌
calls_breach_example =
    calls_breach units-IsDecimal 2 (negsuc 0) later trading refl (tt, (tt, (tt, tt)))

calls-uncached_example :
    let e = (calls later (new_engine config (pos 100000))).0 in
    (validate_and_size env signal event e).1
    ≡ (validate_and_size env signal event (record e { sizers = [] })).1
calls-uncached_example = calls-uncached config (pos 100000) later env signal event

check_exposure_limits-Permᴰ_example :
    check_exposure_limits (record trading { positions = turned }) "MES" (pos 80) instrument_mes
    ≡ check_exposure_limits trading "MES" (pos 80) instrument_mes
unfolding IsMap lookup
check_exposure_limits-Permᴰ_example =
    check_exposure_limits-Permᴰ units-IsDecimal trading turned "MES" (pos 80) instrument_mes
      (refl, (refl, tt)) (Permᴰ.swap refl refl)
