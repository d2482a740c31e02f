-- ===== src/Broker/Contract/FrontMonth.antt =====
-- The front month of internal/broker/broker.go is the first quarterly month whose third Friday is to
-- come.
use quant_bot.Prelude.{ℕ, ◌≡◌, ◌≤◌, ◌<◌, ◌+◌, ◌*◌, ◌-◌, ◌⊎◌, Bool, true, arith, ltb, leb, ◌&&◌}
use quant_bot.Broker.Contract.{Time, midnight, instant, get_third_friday}

-- A time with a month and a day of the calendar.
pub record IsTime (now : Time) : Type 0 where
  pub year_positive : 1 ≤ now.year
  pub month_positive : 1 ≤ now.month
  pub month_le : now.month ≤ 12
  pub day_positive : 1 ≤ now.day
  pub day_le : now.day ≤ 31
  pub nanosecond_lt : now.nanosecond < 86_400_000_000_000

pub IsQuarterly : ℕ → Type 0
IsQuarterly month = (month ≡ 3) ⊎ ((month ≡ 6) ⊎ ((month ≡ 9) ⊎ (month ≡ 12)))

-- The third Friday of the month has begun.
pub IsPast : Time → ℕ → ℕ → Type 0
IsPast now year month = midnight (get_third_friday year month) ≤ instant now

-- The test of the loop over the quarterly months.
abbrev test : Time → ℕ → Bool
test now q = leb now.month q && ltb (instant now) (midnight (get_third_friday now.year q))

-- `earlier` counts the months from the begin of this year.
pub record IsFrontMonth (now : Time) (year month : ℕ) : Type 0 where
  pub quarterly : IsQuarterly month
  pub to_come : instant now < midnight (get_third_friday year month)
  pub year_near : (year ≡ now.year) ⊎ (year ≡ now.year + 1)
  pub earlier : (q : ℕ) → IsQuarterly q → q < month + 12 * (year - now.year) → IsPast now now.year q

to_come :
    (now : Time) (q : ℕ) → test now q ≡ true → instant now < midnight (get_third_friday now.year q)
to_come now q e = ground (arith, e)
