-- ===== src/Risk/Sizer.antt =====
-- internal/risk/sizer.go: how many contracts a signal may trade.
pub mod Bounds
pub mod Details
use quant_bot.Prelude.{ℕ, String, Bool, true, false, Option, none, some, ◌||◌, if◌then◌else◌}
use quant_bot.Prelude.Int.{ℤ, pos, leb_ℤ, ltb_ℤ}
use quant_bot.Decimal.{Decimal}
use quant_bot.Types.{
  Side, flat, long, short, Result, ok, err, Error, invalid_symbol, get_instrument_spec,
  InstrumentSpec, Reject, stop_distance_not_positive, equity_not_positive, risk_not_positive,
  risk_above_maximum, less_than_one_contract,
}

pub record PositionSizer {ℓ} (D : Type ℓ) : Type ℓ where
  pub tick_value : D

pub record SizeResult {ℓ} (D : Type ℓ) : Type ℓ where
  pub contracts : ℤ
  pub risk_amount : D
  pub stop_loss : D
  pub valid : Bool
  pub reject_reason : Option Reject

module _ {ℓ} {D : Type ℓ} ⦃d : Decimal D⦄ where
  open d use {
    zero_dec, of_int, literal, add, sub, mul, div, floor, int_part, less_than_or_equal,
    greater_than, is_zero,
  }

  abbrev pub new_position_sizer : D → PositionSizer D
  new_position_sizer tick_value = record { tick_value = tick_value }

  unfoldable pub new_position_sizer_for_symbol : String → Result (PositionSizer D)
  new_position_sizer_for_symbol symbol = elim (get_instrument_spec {D = D} symbol) [
    | none ↦ err invalid_symbol
    | some spec ↦ ok (new_position_sizer spec.tick_value)
  ]

  -- `stopDistanceTicks * tickValue`
  abbrev pub tick_risk : PositionSizer D → ℤ → D
  tick_risk p stop = mul (of_int stop) p.tick_value

  unfoldable pub calculate : PositionSizer D → D → D → ℤ → ℤ
  calculate p equity risk_per_trade_pct stop =
      if leb_ℤ stop (pos 0)
      then pos 0
      else if less_than_or_equal equity zero_dec
      then pos 0
      else if less_than_or_equal risk_per_trade_pct zero_dec
      then pos 0
      else if is_zero (tick_risk p stop)
      then pos 0
      else let contracts =
          int_part (floor (div (mul equity risk_per_trade_pct) (tick_risk p stop))) in
        if ltb_ℤ contracts (pos 0) then pos 0 else contracts

  -- The `SizeResult` of a refusal.
  abbrev refuse : Reject → SizeResult D
  refuse reason = record {
    contracts = pos 0;
    risk_amount = zero_dec;
    stop_loss = zero_dec;
    valid = false;
    reject_reason = some reason;
  }

  -- The stop loss on the losing side of the entry.
  abbrev pub stop_price : Side → D → D → D
  stop_price long entry distance = sub entry distance
  stop_price short entry distance = add entry distance
  stop_price flat entry distance = zero_dec

  unfoldable pub calculate_with_details : PositionSizer D → D → D → ℤ → D → Side → D → SizeResult D
  calculate_with_details p equity risk_per_trade_pct stop entry_price side tick_size =
      if leb_ℤ stop (pos 0)
      then refuse stop_distance_not_positive
      else if less_than_or_equal equity zero_dec
      then refuse equity_not_positive
      else if less_than_or_equal risk_per_trade_pct zero_dec
      then refuse risk_not_positive
      else if greater_than risk_per_trade_pct (literal 1 1)
      then refuse risk_above_maximum
      else let contracts = calculate p equity risk_per_trade_pct stop in
        if ltb_ℤ contracts (pos 1) then refuse less_than_one_contract else record {
          contracts = contracts;
          risk_amount = mul (tick_risk p stop) (of_int contracts);
          stop_loss = stop_price side entry_price (mul tick_size (of_int stop));
          valid = true;
          reject_reason = none;
        }

  unfoldable pub max_contracts : PositionSizer D → D → D → D → D → ℤ
  max_contracts p equity max_exposure_pct current_price point_value =
      if is_zero current_price || is_zero point_value
      then pos 0
      else if is_zero (mul current_price point_value)
      then pos 0
      else int_part (floor (div (mul equity max_exposure_pct) (mul current_price point_value)))

  unfoldable pub adjust_for_max_size : PositionSizer D → ℤ → ℤ → ℤ
  adjust_for_max_size p calculated max_allowed =
      if ltb_ℤ max_allowed calculated then max_allowed else calculated
