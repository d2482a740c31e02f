-- ===== src/Broker/Contract.antt =====
-- The contracts of internal/broker/broker.go and their front month. A time is a date of the calendar in
-- UTC with the nanoseconds of its day; an instant counts nanoseconds from the first of March of
-- the year 0, a Wednesday.
pub mod FrontMonth
use quant_bot.Prelude.{
  ℕ, suc, ◌+◌, ◌*◌, ◌-◌, ◌/◌, ◌%◌, String, Bool, true, false, List, [], ◌∷◌, if◌then◌else◌, ltb,
  leb, ◌&&◌,
}
use quant_bot.Prelude.Int.{ℤ, pos}
use Prim.Native.String as Str
use Prim.Native.String.{slice}

pub record Contract : Type 0 where
  pub symbol : String
  pub sec_type : String
  pub exchange : String
  pub currency : String
  pub local_symbol : String
  pub multiplier : ℤ
  pub expiry : String

unfoldable pub mes_contract : String → Contract
mes_contract expiry = record {
  symbol = "MES";
  sec_type = "FUT";
  exchange = "CME";
  currency = "USD";
  local_symbol = Str.◌++◌ "MES" expiry;
  multiplier = pos 5;
  expiry = expiry;
}

unfoldable pub mgc_contract : String → Contract
mgc_contract expiry = record {
  symbol = "MGC";
  sec_type = "FUT";
  exchange = "COMEX";
  currency = "USD";
  local_symbol = Str.◌++◌ "MGC" expiry;
  multiplier = pos 10;
  expiry = expiry;
}

pub record Time : Type 0 where
  pub year : ℕ
  pub month : ℕ
  pub day : ℕ
  pub nanosecond : ℕ

-- The number of days before the first of March of the year.
unfoldable pub days_before : ℕ → ℕ
days_before year = 365 * year + year / 4 + year / 400 - year / 100

-- The number of days from the first of March to the day of a later month of the year.
unfoldable pub day_of_year : ℕ → ℕ → ℕ
day_of_year month day = (153 * (month - 3) + 2) / 5 + day - 1

-- `time.Date` in UTC at midnight, in days. January and February belong to the year before.
unfoldable pub day_number : ℕ → ℕ → ℕ → ℕ
day_number year month day =
    if ltb month 3
    then days_before (year - 1) + day_of_year (month + 12) day
    else days_before year + day_of_year month day

unfoldable pub weekday : ℕ → ℕ
weekday n = (n + 3) % 7

unfoldable pub midnight : ℕ → ℕ
midnight n = n * 86_400_000_000_000

unfoldable pub instant : Time → ℕ
instant t = midnight (day_number t.year t.month t.day) + t.nanosecond

-- The days until a Friday are at most six, so the date of the third one stays in its month.
unfoldable pub get_third_friday : ℕ → ℕ → ℕ
get_third_friday year month =
    let first = day_number year month 1 in
    let first_friday = first + (5 + 7 - weekday first) % 7 in first_friday + 14

unfoldable pub digit : ℕ → String
digit n = slice "0123456789" (n % 10) (n % 10 + 1)

-- The format of a year of four digits.
unfoldable pub format_expiry : ℕ → ℕ → String
format_expiry year month = Str.◌++◌ (Str.◌++◌ (digit (year / 1000)) (digit (year / 100))) (
    Str.◌++◌ (Str.◌++◌ (digit (year / 10)) (digit year))
      (Str.◌++◌ (digit (month / 10)) (digit month)))

-- The year and the month that the loop over the months finds.
unfoldable pub front_month : Time → List ℕ → ℕ × ℕ
front_month now [] = (now.year + 1, 3)
front_month now (month ∷ months) =
    let later = front_month now months in
    if leb now.month month && ltb (instant now) (midnight (get_third_friday now.year month))
    then (now.year, month)
    else later

unfoldable pub quarterly_months : List ℕ
quarterly_months = 3 ∷ 6 ∷ 9 ∷ 12 ∷ []

unfoldable pub get_front_month_expiry : Time → String
get_front_month_expiry now =
    let (year, month) = front_month now quarterly_months in format_expiry year month
