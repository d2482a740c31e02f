-- ===== src/Tests/Config.antt =====
-- internal/config/config.go at a concrete configuration, whose numbers are decimals themselves.
use quant_bot.Prelude.{◌≡◌, refl, true, false, not, some, [], ap}
use quant_bot.Prelude.Int.{ℤ, pos, ltb_ℤ}
use quant_bot.Decimal.Units.{units}
use quant_bot.Types.{ok, InstrumentSpec, get_instrument_spec}
use quant_bot.Risk.Engine as Risk
use quant_bot.Config.{
  Floats, Config, validate, account_errors, market_errors, risk_errors, persistence_errors,
  with_defaults, report_if, is_supported, to_risk_config,
}
use quant_bot.Config.Valid.{IsFloats, IsSafe, validate-IsSafe}

abbrev floats : Floats ℤ ℤ
floats = record {
  le_zero = λ x. not (units.less_than (pos 0) x);
  is_above = λ x v e. units.less_than (units.literal v e) x;
  new_from_float = λ x. ok x;
}

floats-IsFloats : IsFloats floats
floats-IsFloats = record {
  le_zero-eq = λ x y e. ap (λ z. not (units.less_than (pos 0) z)) (cc e);
  is_above-eq = λ x y v n e. ap (λ z. units.less_than (units.literal v n) z) (cc e);
}

abbrev settings : Config ℤ
settings = record {
  account = record {
    starting_equity = pos 10000;
    max_global_drawdown_pct = pos 1;
    risk_per_trade_pct = pos 1;
  };
  instrument_primary = "MES";
  risk = record {
    stop_loss_atr_multiple = pos 2;
    take_profit_atr_multiple = pos 3;
    max_exposure_per_symbol_pct = pos 1;
    max_total_exposure_pct = pos 2;
  };
  execution = record { order_timeout_sec = pos 0; max_retries = pos 1; retry_delay_ms = pos 500 };
  shutdown_timeout_sec = pos 30;
  persistence = record {
    enabled = true;
    store = "sqlite";
    path = "bot.db";
    dsn = "";
    snapshot_interval_sec = pos 60;
  };
  alerting = record { enabled = false; events = [] };
}

abbrev validated : Config ℤ
validated = record settings {
  execution = record { order_timeout_sec = pos 5; max_retries = pos 1; retry_delay_ms = pos 500 };
}

abbrev limits : Risk.Config ℤ
limits = record {
  max_global_drawdown_pct = pos 1;
  risk_per_trade_pct = pos 1;
  max_exposure_per_symbol_pct = pos 1;
  max_total_exposure_pct = pos 2;
  stop_loss_atr_multiple = pos 2;
  take_profit_atr_multiple = pos 3;
}

validates : validate floats settings ≡ (validated, [])
unfolding validate with_defaults account_errors market_errors risk_errors persistence_errors
    report_if is_supported get_instrument_spec
validates = refl

validate-IsSafe_example :
    ((spec : InstrumentSpec ℤ) × (get_instrument_spec validated.instrument_primary ≡ some spec))
    × (ltb_ℤ (pos 0) validated.execution.order_timeout_sec ≡ true)
    × IsSafe limits
unfolding to_risk_config
validate-IsSafe_example =
    validate-IsSafe floats floats-IsFloats settings validated limits validates refl
