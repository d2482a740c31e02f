-- ===== src/Tests/Observer.antt =====
-- internal/observer/backtest_feed.go at a concrete file: a header, a row, a row with a price that is
-- no number, and a row without a volume.
use quant_bot.Prelude.{
  ◌≡◌, refl, String, false, Option, none, some, List, [], ◌∷◌, str_eq, leb, if◌then◌else◌,
}
use quant_bot.Prelude.Int.{ℤ, pos}
use quant_bot.Decimal.Units.{units}
use quant_bot.Types.{ok, MarketEvent}
use quant_bot.Observer.Feeds.{
  Parsers, Read, row, BacktestFeed, subscribe, Outside, load, parse_csv, parse_from, is_header,
  is_one_of, headers, add_row, parse_record, parse_timestamp, parse_volume, matching,
}

abbrev number : String → Option ℤ
number s = if str_eq s "7" then some (pos 7) else none

abbrev parsers : Parsers ℤ
parsers = record {
  parse_int = number;
  new_from_string = number;
  unix = λ _. 9;
  parse_time = λ _ _. none;
}

abbrev reads : List Read
reads =
    row ("time" ∷ "open" ∷ "high" ∷ "low" ∷ "close" ∷ "volume" ∷ [])
    ∷ row ("7" ∷ "7" ∷ "7" ∷ "7" ∷ "7" ∷ "7" ∷ [])
    ∷ row ("7" ∷ "7" ∷ "x" ∷ "7" ∷ "7" ∷ "7" ∷ [])
    ∷ row ("7" ∷ "7" ∷ "7" ∷ "7" ∷ "7" ∷ "" ∷ [])
    ∷ []

-- The context is done when the third event is to be sent.
abbrev outside : Outside
outside = record { files = λ _. some reads; done_at = λ k. leb 2 k }

abbrev feed : BacktestFeed ℤ
feed = record { file_path = "mes.csv"; symbol = "MES"; events = []; loaded = false }

abbrev bar_with : ℤ → MarketEvent ℤ
bar_with volume = record {
  symbol = "MES";
  timestamp = 9;
  open_price = pos 7;
  high = pos 7;
  low = pos 7;
  close = pos 7;
  volume = volume;
  atr = pos 0;
  std_dev = pos 0;
}

receives : (subscribe parsers outside "MES" feed).1 ≡ ok (bar_with (pos 7) ∷ bar_with (pos 0) ∷ [])
unfolding subscribe load parse_csv parse_from is_header is_one_of headers add_row parse_record
    parse_timestamp parse_volume matching
receives = refl
