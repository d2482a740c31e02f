-- ===== src/Tests/Broker.antt =====
-- internal/broker/paper at concrete inputs: an order for three contracts of MES, filled and sold.
use quant_bot.Prelude.{◌≡◌, refl, List, [], ◌∷◌, arith, inl, inr}
use quant_bot.Prelude.Int.{ℤ, pos, ◌+ℤ◌, ◌-ℤ◌, ◌*ℤ◌}
use quant_bot.Prelude.Dict.{lookup, insert}
use quant_bot.Decimal.Units.{units, units-IsDecimal}
use quant_bot.Types.{
  Result, ok, err, panic, long, short, OrderIntent, get_instrument_spec, instrument_mes,
}
use quant_bot.Broker.Paper.Account.{Config, Broker, Running, new_broker, connect, is_connected}
use quant_bot.Broker.Paper.Positions.{
  update_position, opened, update_position_pnl, profit_at, reduce, realize_position_pnl,
}
use quant_bot.Broker.Paper.Orders.{simulate_fill, cancel_order, place_order, submit, paper_order_id}
use quant_bot.Broker.Contract.{
  Time, get_front_month_expiry, front_month, quarterly_months, instant, midnight, get_third_friday,
  weekday, day_number, days_before, day_of_year, format_expiry, digit,
}
use quant_bot.Broker.Paper.Mark.{IsRealized, update_position-IsRealized}
use quant_bot.Broker.Paper.Calls.{Call, connects, order, finish, cancel, calls, call}
use quant_bot.Broker.Paper.Cash.{calls_books}
use quant_bot.Broker.Paper.Cancel.{IsCompleted, simulate_fill-cancel_order}
use quant_bot.Broker.Paper.Net.{IsUpdated}
use quant_bot.Broker.Paper.Net.Updates.{update_position-IsUpdated}

abbrev pub paper_config : Config ℤ
paper_config = record {
  initial_equity = pos 10000;
  slippage_ticks = pos 1;
  commission_per_side = pos 62;
  fill_delay = 50;
}

abbrev pub paper_intent : OrderIntent ℤ
paper_intent = record {
  id = "i1";
  client_order_id = "c1";
  timestamp = 5;
  symbol = "MES";
  side = long;
  contracts = pos 3;
  entry_price = pos 500000;
  stop_loss = pos 499750;
  take_profit = pos 500750;
  risk_amount = pos 100;
  signal_id = "s1";
  expires_at = 9;
}

abbrev holding : Broker ℤ
holding = record (new_broker paper_config) {
  positions = ("MES", opened 4 "MES" long (pos 2) (pos 500000)) ∷ [];
  prices = ("MES", pos 500100) ∷ [];
}

-- A sale of five contracts turns two long ones into three short ones.
update_position-IsUpdated_example :
    (b : Broker ℤ) × (update_position 6 "MES" short (pos 5) (pos 500100) holding ≡ ok b)
    × IsUpdated "MES" short (pos 5) holding b
unfolding opened lookup get_instrument_spec ◌+ℤ◌
update_position-IsUpdated_example =
    update_position-IsUpdated units-IsDecimal 6 "MES" short (pos 5) (pos 500100) holding
      (omega arith, inl refl) (λ p e. ground (arith, e)) (λ e. absurd (ground (arith, e)))
      (inr refl) (omega arith)

abbrev run : List (Call ℤ)
run = connects ∷ order 5 paper_intent ∷ cancel 6 "PAPER-2" ∷ finish 7 0 ∷ []

abbrev ran : Broker ℤ
ran = elim (calls run (new_broker paper_config)) [
  | ok (b, fees) ↦ b
  | err _ ↦ new_broker paper_config
  | panic ↦ new_broker paper_config
]

runs : calls run (new_broker paper_config) ≡ ok (ran, pos 186)
unfolding calls call new_broker connect place_order submit paper_order_id is_connected cancel_order
    simulate_fill update_position opened lookup insert get_instrument_spec instrument_mes ◌*ℤ◌ ◌+ℤ◌
    ◌-ℤ◌
runs = refl

calls_books_example : ran.equity ≡ ran.cash +ℤ pos 186
calls_books_example = calls_books units-IsDecimal paper_config run ran (pos 186) runs

abbrev going : Running ℤ
going = record { order_id = "PAPER-2"; intent = paper_intent }

abbrev ordered : Broker ℤ
ordered = (place_order 5 paper_intent (connect holding)).0

simulate_fill-cancel_order_example :
    (simulate_fill 7 going (cancel_order 6 "PAPER-2" ordered) ≡ simulate_fill 7 going ordered)
    × IsCompleted going
        (lookup "PAPER-2" ordered.orders)
        (simulate_fill 7 going (cancel_order 6 "PAPER-2" ordered))
simulate_fill-cancel_order_example = simulate_fill-cancel_order 7 6 going ordered

abbrev result_or : Broker ℤ → Result (Broker ℤ) → Broker ℤ
result_or b (ok b') = b'
result_or b _ = b

abbrev marked_book : Broker ℤ
marked_book = result_or holding (update_position_pnl 5 "MES" (pos 500100) holding)

abbrev closed_book : Broker ℤ
closed_book = result_or holding (update_position 6 "MES" short (pos 2) (pos 500100) holding)

marks : update_position_pnl 5 "MES" (pos 500100) holding ≡ ok marked_book
unfolding update_position_pnl profit_at opened lookup get_instrument_spec instrument_mes
marks = refl

closes_out : update_position 6 "MES" short (pos 2) (pos 500100) holding ≡ ok closed_book
unfolding update_position reduce realize_position_pnl profit_at opened lookup get_instrument_spec
    instrument_mes
closes_out = refl

update_position-IsRealized_example : IsRealized "MES" holding marked_book closed_book
unfolding opened lookup
update_position-IsRealized_example =
    update_position-IsRealized 5 6 "MES" short (pos 500100)
      (opened 4 "MES" long (pos 2) (pos 500000)) holding marked_book closed_book refl refl refl
      marks closes_out

-- The third Friday of December 2024 is the 20th.
abbrev christmas : Time
christmas = record { year = 2024; month = 12; day = 25; nanosecond = 5 }

rolls : get_front_month_expiry christmas ≡ "202503"
unfolding get_front_month_expiry front_month quarterly_months instant midnight get_third_friday
    weekday day_number days_before day_of_year format_expiry digit
rolls = refl
