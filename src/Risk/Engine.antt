-- ===== src/Risk/Engine.antt =====
-- internal/risk/engine.go: the risk engine. A method takes the engine and returns the new one; the
-- clock and the random identifiers that it asks for come in an `Env`. Its lock makes each method one
-- step, so a run of the engine is a sequence of calls.
pub mod Calls
pub mod Sizers
pub mod Approval
pub mod Exposure
pub mod Total
use quant_bot.Prelude.{
  ℕ, zero, ◌+◌, String, ◌++◌, Bool, true, false, not, Option, none, some, List, [], ◌∷◌, str_eq,
  if◌then◌else◌, length,
}
use quant_bot.Prelude.Int.{ℤ, pos, leb_ℤ}
use quant_bot.Prelude.Dict.{Dict, lookup, insert, erase}
use mathlib.Core.List.{foldl}
use Prim.Native.String as Str
use Prim.Native.String.{slice}
use quant_bot.Decimal.{Decimal}
use quant_bot.Types.{
  Result, ok, err, panic, ◌>>=◌, ◌>>◌, reject_if, or_error, checked_div, Side, long, short, flat,
  Error, kill_switch_active, exposure_limit_exceeded, insufficient_equity, invalid_symbol,
  context_done, atr_unavailable, Signal, MarketEvent, OrderIntent, Position, InstrumentSpec,
  EquitySnapshot, get_instrument_spec,
}
use quant_bot.Risk.HighWater.{HighWaterMarkTracker, new_tracker, update, drawdown, snapshot}
use quant_bot.Risk.Sizer.{
  PositionSizer, SizeResult, new_position_sizer_for_symbol, calculate_with_details,
}

pub record Config {ℓ} (D : Type ℓ) : Type ℓ where
  pub max_global_drawdown_pct : D
  pub risk_per_trade_pct : D
  pub max_exposure_per_symbol_pct : D
  pub max_total_exposure_pct : D
  pub stop_loss_atr_multiple : D
  pub take_profit_atr_multiple : D

pub record Engine {ℓ} (D : Type ℓ) : Type ℓ where
  pub cfg : Config D
  pub hwm : HighWaterMarkTracker D
  pub sizers : Dict (PositionSizer D)
  pub positions : Dict (Position D)
  pub safe_mode : Bool
  pub safe_mode_at : ℕ

-- What a call reads from outside: whether its context is done, the clock at each reading, and the
-- texts of the identifiers and of the formatted time.
pub record Env : Type 0 where
  pub context_is_done : Bool
  pub intent_uuid : String
  pub client_stamp : String
  pub client_uuid : String
  pub now : ℕ
  pub expiry_base : ℕ
  pub safe_mode_now : ℕ

abbrev is_zero_int : ℤ → Bool
is_zero_int (pos zero) = true
is_zero_int _ = false

-- Five minutes in nanoseconds.
abbrev five_minutes : ℕ
five_minutes = 300_000_000_000

unfoldable pub generate_client_order_id : Env → String
generate_client_order_id env = Str.◌++◌ (Str.◌++◌ env.client_stamp "-") (slice env.client_uuid 0 8)

module _ {ℓ} {D : Type ℓ} ⦃d : Decimal D⦄ where
  open d use {
    zero_dec, of_int, literal, add, sub, mul, ceil, int_part, greater_than, greater_than_or_equal,
    is_zero,
  }

  unfoldable pub default_config : Config D
  default_config = record {
    max_global_drawdown_pct = literal 20 2;
    risk_per_trade_pct = literal 1 2;
    max_exposure_per_symbol_pct = literal 50 2;
    max_total_exposure_pct = literal 100 2;
    stop_loss_atr_multiple = literal 20 1;
    take_profit_atr_multiple = literal 30 1;
  }

  unfoldable pub new_engine : Config D → D → Engine D
  new_engine cfg initial_equity = record {
    cfg = cfg;
    hwm = new_tracker initial_equity;
    sizers = [];
    positions = [];
    safe_mode = false;
    safe_mode_at = 0;
  }

  -- `enterSafeModeLocked`
  unfoldable pub enter_safe_mode_locked : ℕ → Engine D → Engine D
  enter_safe_mode_locked now e =
      if e.safe_mode then e else record e { safe_mode = true; safe_mode_at = now }

  unfoldable pub exit_safe_mode : Engine D → Engine D
  exit_safe_mode e = if e.safe_mode then record e { safe_mode = false } else e

  unfoldable pub update_equity : ℕ → D → Engine D → Engine D
  unfolding enter_safe_mode_locked
  update_equity now equity e =
      let e' = record e { hwm = (update equity e.hwm).0 } in
      if greater_than_or_equal (drawdown e'.hwm) e'.cfg.max_global_drawdown_pct
      then enter_safe_mode_locked now e'
      else e'

  unfoldable pub update_position : Position D → Engine D → Engine D
  update_position p e =
      if is_zero_int p.contracts
      then record e { positions = erase p.symbol e.positions }
      else record e { positions = insert p.symbol p e.positions }

  unfoldable pub get_position : String → Engine D → Option (Position D)
  get_position symbol e = lookup symbol e.positions

  unfoldable pub get_snapshot : ℕ → Engine D → EquitySnapshot D
  get_snapshot now e =
      let (current, peak, dd) = snapshot e.hwm in
      record {
        timestamp = now;
        equity = current;
        high_water_mark = peak;
        drawdown = dd;
        open_positions = length e.positions;
        daily_pl = zero_dec;
      }

  -- The sizer is taken from the cache, or made for the symbol and put into it.
  unfoldable pub get_or_create_sizer : String → Engine D → Engine D × Result (PositionSizer D)
  get_or_create_sizer symbol e = elim (lookup symbol e.sizers) [
    | some sizer ↦ (e, ok sizer)
    | none ↦ elim (new_position_sizer_for_symbol {D = D} symbol) [
      | ok sizer ↦ (record e { sizers = insert symbol sizer e.sizers }, ok sizer)
      | err x ↦ (e, err x)
      | panic ↦ (e, panic)
    ]
  ]

  -- The intraday margin of one contract, or the initial margin where there is none.
  unfoldable pub margin_per_contract : InstrumentSpec D → D
  margin_per_contract spec =
      if is_zero spec.margin_intra then spec.margin_initial else spec.margin_intra

  unfoldable pub symbol_margin : String → ℤ → InstrumentSpec D → Dict (Position D) → D
  unfolding margin_per_contract
  symbol_margin symbol contracts spec positions =
      let new_margin = mul (margin_per_contract spec) (of_int contracts) in
      elim (lookup symbol positions) [
        | none ↦ new_margin
        | some p ↦ add new_margin (mul (margin_per_contract spec) (of_int p.contracts))
      ]

  -- One round of the loop over the positions.
  unfoldable pub add_position_margin : String → D → String × Position D → D
  unfolding margin_per_contract
  add_position_margin symbol total (sym, p) =
      if str_eq sym symbol then total else elim (get_instrument_spec {D = D} sym) [
        | none ↦ total
        | some spec ↦ add total (mul (margin_per_contract spec) (of_int p.contracts))
      ]

  unfoldable pub total_margin : String → ℤ → InstrumentSpec D → Dict (Position D) → D
  total_margin symbol contracts spec positions =
      foldl (add_position_margin symbol) (symbol_margin symbol contracts spec positions) positions

  unfoldable pub check_exposure_limits :
      Engine D → String → ℤ → InstrumentSpec D → Result (Unit {0})
  check_exposure_limits e symbol contracts spec =
      let equity = e.hwm.current in
      do
        reject_if
            (greater_than (symbol_margin symbol contracts spec e.positions)
              (mul equity e.cfg.max_exposure_per_symbol_pct))
            exposure_limit_exceeded
        reject_if
            (greater_than (total_margin symbol contracts spec e.positions)
              (mul equity e.cfg.max_total_exposure_pct))
            exposure_limit_exceeded

  -- The stop distance from the average true range.
  unfoldable pub atr_stop : Config D → InstrumentSpec D → MarketEvent D → Result ℤ
  atr_stop cfg spec event = do
    reject_if (is_zero event.atr) atr_unavailable
    ticks ← checked_div (mul event.atr cfg.stop_loss_atr_multiple) spec.tick_size
    ok (int_part (ceil ticks))

  -- The stop distance in ticks: the signal's, or one from the average true range.
  unfoldable pub stop_distance : Config D → InstrumentSpec D → Signal D → MarketEvent D → Result ℤ
  unfolding atr_stop
  stop_distance cfg spec signal event =
      if leb_ℤ signal.stop_ticks (pos 0) then atr_stop cfg spec event else ok signal.stop_ticks

  -- The take profit on the winning side of the entry.
  abbrev pub target_price : Side → D → D → D
  target_price long entry distance = add entry distance
  target_price short entry distance = sub entry distance
  target_price flat entry distance = zero_dec

  -- `ValidateAndSize` from the instrument's specification on; here the engine does not change.
  unfoldable pub size_order :
      Env → Signal D → MarketEvent D → Engine D → PositionSizer D → Result (OrderIntent D)
  size_order env signal event e sizer = do
    spec ← or_error (get_instrument_spec {D = D} signal.symbol) invalid_symbol
    stop ← stop_distance e.cfg spec signal event
    let size =
        calculate_with_details sizer e.hwm.current e.cfg.risk_per_trade_pct stop event.close
          signal.direction spec.tick_size
    reject_if (not size.valid) (insufficient_equity size.reject_reason)
    check_exposure_limits e signal.symbol size.contracts spec
    ratio ← checked_div e.cfg.take_profit_atr_multiple e.cfg.stop_loss_atr_multiple
    ok (record {
      id = env.intent_uuid;
      client_order_id = generate_client_order_id env;
      timestamp = env.now;
      symbol = signal.symbol;
      side = signal.direction;
      contracts = size.contracts;
      entry_price = event.close;
      stop_loss = size.stop_loss;
      take_profit =
          target_price signal.direction event.close (mul (mul spec.tick_size (of_int stop)) ratio);
      risk_amount = size.risk_amount;
      signal_id = signal.id;
      expires_at = env.expiry_base + five_minutes;
    })

  unfoldable pub validate_and_size :
      Env → Signal D → MarketEvent D → Engine D → Engine D × Result (OrderIntent D)
  validate_and_size env signal event e =
      if env.context_is_done
      then (e, err context_done)
      else if e.safe_mode
      then (e, err kill_switch_active)
      else if greater_than_or_equal (drawdown e.hwm) e.cfg.max_global_drawdown_pct
      then (enter_safe_mode_locked env.safe_mode_now e, err kill_switch_active)
      else let (e', sizer) = get_or_create_sizer signal.symbol e in
        (e', sizer >>= size_order env signal event e')
