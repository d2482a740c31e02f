-- ===== src/Config.antt =====
-- internal/config/config.go: the validation of a configuration and what the other parts take from it.
-- The sections that no method reads are left out. Floating point is the parameter `Floats`.
pub mod Valid
use quant_bot.Prelude.{
  ℕ, ◌==◌, String, Bool, true, false, not, ◌&&◌, ◌||◌, Option, some, none, List, [], ◌∷◌, ◌++◌,
  if◌then◌else◌, str_eq,
}
use Prim.Native.String as Str
use quant_bot.Prelude.Int.{ℤ, pos, ltb_ℤ, leb_ℤ, ◌*ℤ◌, wrap}
use quant_bot.Decimal.{Decimal}
use quant_bot.Types.{
  Result, ok, err, or_error, parse_failed, open_failed, invalid_config, ◌>>=◌, get_instrument_spec,
}
use quant_bot.Risk.Engine as Risk

-- `float64` with the tests `x <= 0` and `x > v * 10^-e`, and `decimal.NewFromFloat`, which panics for what
-- is no finite number.
pub record Floats {ℓ} (F D : Type ℓ) : Type ℓ where
  pub le_zero : F → Bool
  pub is_above : F → ℕ → ℕ → Bool
  pub new_from_float : F → Result D

pub record AccountConfig {ℓ} (F : Type ℓ) : Type ℓ where
  pub starting_equity : F
  pub max_global_drawdown_pct : F
  pub risk_per_trade_pct : F

pub record RiskConfig {ℓ} (F : Type ℓ) : Type ℓ where
  pub stop_loss_atr_multiple : F
  pub take_profit_atr_multiple : F
  pub max_exposure_per_symbol_pct : F
  pub max_total_exposure_pct : F

pub record ExecutionConfig : Type 0 where
  pub order_timeout_sec : ℤ
  pub max_retries : ℤ
  pub retry_delay_ms : ℤ

pub record PersistenceConfig : Type 0 where
  pub enabled : Bool
  pub store : String
  pub path : String
  pub dsn : String
  pub snapshot_interval_sec : ℤ

pub record AlertingConfig : Type 0 where
  pub enabled : Bool
  pub events : List String

pub record Config {ℓ} (F : Type ℓ) : Type ℓ where
  pub account : AccountConfig F
  pub instrument_primary : String
  pub risk : RiskConfig F
  pub execution : ExecutionConfig
  pub shutdown_timeout_sec : ℤ
  pub persistence : PersistenceConfig
  pub alerting : AlertingConfig

unfoldable pub report_if : Bool → String → List String
report_if bad message = if bad then message ∷ [] else []

-- The defaults of the timeouts.
unfoldable pub with_defaults : ExecutionConfig → ExecutionConfig
with_defaults e = record e {
  order_timeout_sec = if leb_ℤ e.order_timeout_sec (pos 0) then pos 5 else e.order_timeout_sec;
  max_retries = if ltb_ℤ e.max_retries (pos 0) then pos 2 else e.max_retries;
}

unfoldable pub persistence_errors : PersistenceConfig → List String
persistence_errors p =
    if p.enabled
    then report_if (not (str_eq p.store "sqlite") && not (str_eq p.store "postgres"))
        "persistence.type must be 'sqlite' or 'postgres'"
      ++ (report_if (str_eq p.store "sqlite" && str_eq p.path "")
            "persistence.path is required for sqlite"
          ++ report_if (str_eq p.store "postgres" && str_eq p.dsn "")
              "persistence.dsn is required for postgres")
    else []

module _ {ℓ} {F D : Type ℓ} ⦃d : Decimal D⦄ (floats : Floats F D) where
  unfoldable pub account_errors : AccountConfig F → List String
  account_errors a =
      report_if (floats.le_zero a.starting_equity) "account.starting_equity must be positive"
      ++ (report_if
            (floats.le_zero a.max_global_drawdown_pct
              || floats.is_above a.max_global_drawdown_pct 1 0)
            "account.max_global_drawdown_pct must be between 0 and 1"
          ++ report_if
              (floats.le_zero a.risk_per_trade_pct || floats.is_above a.risk_per_trade_pct 1 1)
              "account.risk_per_trade_pct must be between 0 and 0.1 (10%)")

  unfoldable pub is_supported : String → Bool
  is_supported symbol = elim (get_instrument_spec {D = D} symbol) [ some _ ↦ true | none ↦ false ]

  unfoldable pub market_errors : String → List String
  market_errors symbol =
      report_if (str_eq symbol "") "market.instrument_primary is required"
      ++ report_if (not (is_supported symbol) && not (str_eq symbol ""))
          (Str.◌++◌ "market.instrument_primary '" (Str.◌++◌ symbol "' is not supported"))

  unfoldable pub risk_errors : RiskConfig F → List String
  risk_errors r =
      report_if (floats.le_zero r.stop_loss_atr_multiple)
        "risk.stop_loss_atr_multiple must be positive"
      ++ (report_if (floats.le_zero r.take_profit_atr_multiple)
            "risk.take_profit_atr_multiple must be positive"
          ++ (report_if
                (floats.le_zero r.max_exposure_per_symbol_pct
                  || floats.is_above r.max_exposure_per_symbol_pct 1 0)
                "risk.max_exposure_per_symbol_pct must be between 0 and 1"
              ++ report_if
                  (floats.le_zero r.max_total_exposure_pct
                    || floats.is_above r.max_total_exposure_pct 2 0)
                  "risk.max_total_exposure_pct must be between 0 and 2"))

  -- The configuration with its defaults, and the messages that the error of `Validate` joins; without
  -- any there is no error.
  unfoldable pub validate : Config F → Config F × List String
  validate c = (
    record c { execution = with_defaults c.execution },
    account_errors c.account
        ++ (market_errors c.instrument_primary
            ++ (risk_errors c.risk ++ persistence_errors c.persistence)),
  )

  -- `LoadFromBytes`; `os.ExpandEnv` and `yaml.Unmarshal` are arguments.
  unfoldable pub load_from_bytes :
      (String → String) → (String → Option (Config F)) → String → Result (Config F)
  load_from_bytes expand_env unmarshal text =
      or_error (unmarshal (expand_env text)) parse_failed >>= λ cfg.
      let (cfg', errs) = validate cfg in
      elim errs [ [] ↦ ok cfg' | e ∷ rest ↦ err (invalid_config (e ∷ rest)) ]

  unfoldable pub load :
      (String → Option String)
      → (String → String)
      → (String → Option (Config F))
      → String
      → Result (Config F)
  load read_file expand_env unmarshal path =
      or_error (read_file path) open_failed >>= load_from_bytes expand_env unmarshal

  unfoldable pub to_risk_config : Config F → Result (Risk.Config D)
  to_risk_config c = floats.new_from_float c.account.max_global_drawdown_pct >>= λ drawdown.
      floats.new_from_float c.account.risk_per_trade_pct >>= λ risk.
      floats.new_from_float c.risk.max_exposure_per_symbol_pct >>= λ per_symbol.
      floats.new_from_float c.risk.max_total_exposure_pct >>= λ total.
      floats.new_from_float c.risk.stop_loss_atr_multiple >>= λ stop.
      floats.new_from_float c.risk.take_profit_atr_multiple >>= λ target. ok (record {
        max_global_drawdown_pct = drawdown;
        risk_per_trade_pct = risk;
        max_exposure_per_symbol_pct = per_symbol;
        max_total_exposure_pct = total;
        stop_loss_atr_multiple = stop;
        take_profit_atr_multiple = target;
      })

  unfoldable pub starting_equity_decimal : Config F → Result D
  starting_equity_decimal c = floats.new_from_float c.account.starting_equity

unfoldable pub is_listed : String → List String → Bool
is_listed name [] = false
is_listed name (e ∷ events) = str_eq e name || str_eq e "all" || is_listed name events

module _ {ℓ} {F : Type ℓ} where
  unfoldable pub order_timeout : Config F → ℤ
  order_timeout c = wrap (c.execution.order_timeout_sec *ℤ pos 1_000_000_000)

  unfoldable pub retry_delay : Config F → ℤ
  retry_delay c = wrap (c.execution.retry_delay_ms *ℤ pos 1_000_000)

  unfoldable pub shutdown_timeout : Config F → ℤ
  shutdown_timeout c = wrap (c.shutdown_timeout_sec *ℤ pos 1_000_000_000)

  unfoldable pub snapshot_interval : Config F → ℤ
  snapshot_interval c = wrap (c.persistence.snapshot_interval_sec *ℤ pos 1_000_000_000)

  unfoldable pub is_alert_event_enabled : String → Config F → Bool
  is_alert_event_enabled name c =
      c.alerting.enabled
      && elim c.alerting.events [ [] ↦ true | _ ∷ _ ↦ is_listed name c.alerting.events ]
