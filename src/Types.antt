-- ===== src/Types.antt =====
-- internal/types/types.go and internal/types/errors.go: the records that the components exchange,
-- and their errors. A time is a count of nanoseconds; `int` fields are integers.
use quant_bot.Prelude.{
  List, ◌≡◌, ◌≢◌, refl, ◌⊎◌, inl, inr, ℕ, Bool, true, false, String, Option, none, some, str_eq,
  if◌then◌else◌,
}
use quant_bot.Prelude.Int.{ℤ}
use quant_bot.Decimal.{Decimal}

-- Why `CalculateWithDetails` gives no size.
pub data Reject : Type 0 where
  stop_distance_not_positive : Reject
  equity_not_positive : Reject
  risk_not_positive : Reject
  risk_above_maximum : Reject
  less_than_one_contract : Reject

-- The sentinel errors, with one constructor for each further message of the modelled code.
pub data Error : Type 0 where
  kill_switch_active : Error
  exposure_limit_exceeded : Error
  insufficient_equity : Option Reject → Error
  duplicate_order : Error
  invalid_symbol : Error
  context_done : Error
  atr_unavailable : Error
  unknown_symbol : String → Error
  no_market_data : String → Error
  order_not_found : String → Error
  not_connected : Error
  already_running : Error
  parse_failed : Error
  read_failed : Error
  open_failed : Error
  invalid_config : List String → Error

-- What a call comes to: a panic (a division by zero), an error, or a value.
pub data Result {ℓ} (A : Type ℓ) : Type ℓ where
  panic : Result A
  err : Error → Result A
  ok : A → Result A

-- A call that fails is the last one of its block.
infixl 5 ◌>>=◌ ◌>>◌
abbrev pub ◌>>=◌ {ℓ κ} : {A : Type ℓ} {C : Type κ} → Result A → (A → Result C) → Result C
panic >>= next = panic
err reason >>= next = err reason
ok value >>= next = next value

abbrev pub ◌>>◌ {ℓ} : {C : Type ℓ} → Result (Unit {0}) → Result C → Result C
first >> second = first >>= λ _. second

-- `if bad { return nil, e }`
abbrev pub reject_if : Bool → Error → Result (Unit {0})
reject_if true e = err e
reject_if false e = ok tt

abbrev pub or_error {ℓ} : {A : Type ℓ} → Option A → Error → Result A
or_error none e = err e
or_error (some a) e = ok a

pub data Side : Type 0 where
  flat : Side
  long : Side
  short : Side

-- `==` on sides.
abbrev pub side_eq : Side → Side → Bool
side_eq flat flat = true
side_eq long long = true
side_eq short short = true
side_eq _ _ = false

unfoldable pub opposite : Side → Side
opposite long = short
opposite short = long
opposite flat = flat

-- `Side.String`
unfoldable pub side_string : Side → String
side_string long = "LONG"
side_string short = "SHORT"
side_string flat = "FLAT"

pub data OrderStatus : Type 0 where
  created : OrderStatus
  pending : OrderStatus
  partial_fill : OrderStatus
  filled : OrderStatus
  rejected : OrderStatus
  cancelled : OrderStatus
  expired : OrderStatus

unfoldable pub is_final : OrderStatus → Bool
is_final filled = true
is_final rejected = true
is_final cancelled = true
is_final expired = true
is_final _ = false

pub record MarketEvent {ℓ} (D : Type ℓ) : Type ℓ where
  pub symbol : String
  pub timestamp : ℕ
  pub open_price : D
  pub high : D
  pub low : D
  pub close : D
  pub volume : ℤ
  pub atr : D
  pub std_dev : D

pub record Signal {ℓ} (D : Type ℓ) : Type ℓ where
  pub id : String
  pub timestamp : ℕ
  pub symbol : String
  pub direction : Side
  pub strength : D
  pub stop_ticks : ℤ
  pub take_profit_atr : D
  pub reason : String
  pub strategy_name : String

pub record OrderIntent {ℓ} (D : Type ℓ) : Type ℓ where
  pub id : String
  pub client_order_id : String
  pub timestamp : ℕ
  pub symbol : String
  pub side : Side
  pub contracts : ℤ
  pub entry_price : D
  pub stop_loss : D
  pub take_profit : D
  pub risk_amount : D
  pub signal_id : String
  pub expires_at : ℕ

pub record OrderResult {ℓ} (D : Type ℓ) : Type ℓ where
  pub order_id : String
  pub client_order_id : String
  pub status : OrderStatus
  pub filled_qty : ℤ
  pub avg_fill_price : D
  pub commission : D
  pub slippage : D
  pub filled_at : ℕ
  pub reject_reason : String

pub record Position {ℓ} (D : Type ℓ) : Type ℓ where
  pub id : String
  pub symbol : String
  pub side : Side
  pub contracts : ℤ
  pub entry_price : D
  pub entry_time : ℕ
  pub stop_loss : D
  pub take_profit : D
  pub unrealized_pl : D
  pub realized_pl : D

pub record EquitySnapshot {ℓ} (D : Type ℓ) : Type ℓ where
  pub timestamp : ℕ
  pub equity : D
  pub high_water_mark : D
  pub drawdown : D
  pub open_positions : ℕ
  pub daily_pl : D

pub record Trade {ℓ} (D : Type ℓ) : Type ℓ where
  pub id : String
  pub symbol : String
  pub side : Side
  pub contracts : ℤ
  pub entry_price : D
  pub exit_price : D
  pub entry_time : ℕ
  pub exit_time : ℕ
  pub gross_pl : D
  pub commission : D
  pub net_pl : D
  pub r_multiple : D
  pub signal_id : String
  pub strategy_name : String

pub record InstrumentSpec {ℓ} (D : Type ℓ) : Type ℓ where
  pub symbol : String
  pub tick_size : D
  pub tick_value : D
  pub point_value : D
  pub margin_initial : D
  pub margin_intra : D

module _ {ℓ} {D : Type ℓ} ⦃d : Decimal D⦄ where
  open d use {zero_dec, literal, div, is_zero}

  -- `d.Div(e)` where the code has not ruled out that `e` is zero.
  abbrev pub checked_div : D → D → Result D
  checked_div a b = if is_zero b then panic else ok (div a b)

  unfoldable pub instrument_mes : InstrumentSpec D
  instrument_mes = record {
    symbol = "MES";
    tick_size = literal 25 2;
    tick_value = literal 125 2;
    point_value = literal 500 2;
    margin_initial = literal 1500 0;
    margin_intra = literal 50 0;
  }

  unfoldable pub instrument_mgc : InstrumentSpec D
  instrument_mgc = record {
    symbol = "MGC";
    tick_size = literal 10 2;
    tick_value = literal 100 2;
    point_value = literal 1000 2;
    margin_initial = literal 1100 0;
    margin_intra = literal 550 0;
  }

  unfoldable pub get_instrument_spec : String → Option (InstrumentSpec D)
  unfolding instrument_mes instrument_mgc
  get_instrument_spec s =
      if str_eq s "MES"
      then some instrument_mes
      else if str_eq s "MGC"
      then some instrument_mgc
      else none

  -- The zero value `InstrumentSpec{}`, which `spec, _ := GetInstrumentSpec(s)` leaves.
  unfoldable pub no_spec : InstrumentSpec D
  no_spec = record {
    symbol = "";
    tick_size = zero_dec;
    tick_value = zero_dec;
    point_value = zero_dec;
    margin_initial = zero_dec;
    margin_intra = zero_dec;
  }

  -- `spec, _ := types.GetInstrumentSpec(s)`
  abbrev pub spec_or_zero : String → InstrumentSpec D
  spec_or_zero s = elim (get_instrument_spec s) [ some spec ↦ spec | none ↦ no_spec ]

-- The three forms of a result, with the equation.
pub Result-cases {ℓ} :
    {A : Type ℓ} (call : Result A)
    → ((value : A) × (call ≡ ok value)) ⊎ ((reason : Error) × (call ≡ err reason)) ⊎ (call ≡ panic)
Result-cases (ok value) = inl (value, refl)
Result-cases (err reason) = inr (inl (reason, refl))
Result-cases panic = inr (inr refl)

-- A block that goes through comes from a call that does.
pub >>=-eq-ok {ℓ κ} :
    {A : Type ℓ} {C : Type κ} (call : Result A) (next : A → Result C) {result : C}
    → (call >>= next) ≡ ok result
    → (value : A) × (call ≡ ok value) × (next value ≡ ok result)
>>=-eq-ok (ok value) next h = (value, refl, h)
>>=-eq-ok (err reason) next h = cc
>>=-eq-ok panic next h = cc

-- A block does not panic if none of its calls does.
pub >>=-ne-panic {ℓ κ} :
    {A : Type ℓ} {C : Type κ} (call : Result A) (next : A → Result C)
    → call ≢ panic
    → ((value : A) → call ≡ ok value → next value ≢ panic)
    → (call >>= next) ≢ panic
>>=-ne-panic (ok value) next h k e = k value refl e
>>=-ne-panic (err reason) next h k e = cc
>>=-ne-panic panic next h k e = h refl
