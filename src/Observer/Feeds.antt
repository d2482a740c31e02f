-- ===== src/Observer/Feeds.antt =====
-- internal/observer/backtest_feed.go: the feed of a CSV file and the feed of a list.
use quant_bot.Prelude.{
  ℕ, suc, String, Bool, true, false, ◌&&◌, ◌||◌, not, Option, none, some, List, [], ◌∷◌, ◌++◌,
  if◌then◌else◌, length, ltb, ◌==◌, str_eq,
}
use quant_bot.Prelude.Int.{ℤ, pos}
use quant_bot.Decimal.{Decimal}
use quant_bot.Types.{
  Result, ok, err, panic, ◌>>=◌, or_error, parse_failed, read_failed, open_failed, MarketEvent,
}
use quant_bot.Indicator.Calculator as Calculator
use quant_bot.Observer.{MarketDataFeed, IndicatorCalculator}

-- What the parser calls of the standard library and of the decimals: `strconv.ParseInt` in base 10,
-- `decimal.NewFromString`, `time.Unix` of a number of seconds, and `time.Parse` in a format.
pub record Parsers {ℓ} (D : Type ℓ) : Type ℓ where
  pub parse_int : String → Option ℤ
  pub new_from_string : String → Option D
  pub unix : ℤ → ℕ
  pub parse_time : String → String → Option ℕ

-- What `csv.Reader.Read` returns before the end of the file: the fields of a row, or an error.
pub data Read : Type 0 where
  row : List String → Read
  failed : Read

unfoldable pub headers : List String
headers = "timestamp" ∷ "time" ∷ "date" ∷ "datetime" ∷ "open" ∷ "high" ∷ "low" ∷ "close" ∷ []

unfoldable pub is_one_of : String → List String → Bool
is_one_of s [] = false
is_one_of s (t ∷ rest) = str_eq s t || is_one_of s rest

unfoldable pub is_header : List String → Bool
is_header [] = false
is_header (first ∷ rest) = is_one_of first headers

unfoldable pub formats : List String
formats =
    "2006-01-02 15:04:05" ∷ "2006-01-02T15:04:05" ∷ "2006-01-02T15:04:05Z" ∷ "2006-01-02 15:04"
    ∷ "2006-01-02" ∷ "01/02/2006 15:04:05" ∷ "01/02/2006" ∷ []

module _ {ℓ} {D : Type ℓ} ⦃d : Decimal D⦄ (parsers : Parsers D) where
  unfoldable pub try_formats : String → List String → Option ℕ
  try_formats s [] = none
  try_formats s (format ∷ rest) = elim (parsers.parse_time format s) [
    | some t ↦ some t
    | none ↦ try_formats s rest
  ]

  unfoldable pub parse_timestamp : String → Option ℕ
  parse_timestamp s = elim (parsers.parse_int s) [
    | some n ↦ some (parsers.unix n)
    | none ↦ try_formats s formats
  ]

  -- The volume of a row, which may lack it.
  unfoldable pub parse_volume : List String → ℤ
  parse_volume [] = pos 0
  parse_volume (volume ∷ rest) = elim (parsers.parse_int volume) [ some n ↦ n | none ↦ pos 0 ]

  -- An index out of range panics.
  unfoldable pub parse_record : String → List String → Result (MarketEvent D)
  parse_record symbol (time ∷ open_price ∷ high ∷ low ∷ close ∷ rest) =
      or_error (parse_timestamp time) parse_failed >>= λ timestamp.
      or_error (parsers.new_from_string open_price) parse_failed >>= λ o.
      or_error (parsers.new_from_string high) parse_failed >>= λ h.
      or_error (parsers.new_from_string low) parse_failed >>= λ l.
      or_error (parsers.new_from_string close) parse_failed >>= λ c. ok (record {
        symbol = symbol;
        timestamp = timestamp;
        open_price = o;
        high = h;
        low = l;
        close = c;
        volume = parse_volume rest;
        atr = d.zero_dec;
        std_dev = d.zero_dec;
      })
  parse_record symbol _ = panic

  -- The event of a row that is not the header, put behind those before it.
  unfoldable pub add_row :
      String → List String → List (MarketEvent D) → Result (List (MarketEvent D))
  add_row symbol fields events =
      if ltb (length fields) 5 then ok events else elim (parse_record symbol fields) [
        | ok event ↦ ok (events ++ (event ∷ []))
        | err _ ↦ ok events
        | panic ↦ panic
      ]

  -- The loop of `ParseCSV` after `n` rows.
  unfoldable pub parse_from :
      String → ℕ → List Read → List (MarketEvent D) → Result (List (MarketEvent D))
  parse_from symbol n [] events = ok events
  parse_from symbol n (failed ∷ reads) events = err read_failed
  parse_from symbol n (row fields ∷ reads) events =
      (if n == 0 && is_header fields then ok events else add_row symbol fields events)
      >>= parse_from symbol (suc n) reads

  unfoldable pub parse_csv : String → List Read → Result (List (MarketEvent D))
  parse_csv symbol reads = parse_from symbol 0 reads []

pub record BacktestFeed {ℓ} (D : Type ℓ) : Type ℓ where
  pub file_path : String
  pub symbol : String
  pub events : List (MarketEvent D)
  pub loaded : Bool

pub record MemoryFeed {ℓ} (D : Type ℓ) : Type ℓ where
  pub events : List (MarketEvent D)
  pub symbol : String

module _ {ℓ} {D : Type ℓ} where
  unfoldable pub new_backtest_feed : String → String → BacktestFeed D
  new_backtest_feed file_path symbol = record {
    file_path = file_path;
    symbol = symbol;
    events = [];
    loaded = false;
  }

  -- The goroutine of `Subscribe`; it closes the channel at the end. `done_at k` is whether its select
  -- takes the context that is done instead of sending the event after the first `k`.
  unfoldable pub matching : (ℕ → Bool) → ℕ → String → List (MarketEvent D) → List (MarketEvent D)
  matching done_at k symbol [] = []
  matching done_at k symbol (event ∷ events) =
      let skipped = matching done_at k symbol events in
      let rest = matching done_at (suc k) symbol events in
      if not (str_eq symbol "") && not (str_eq event.symbol symbol)
      then skipped
      else if done_at k
      then []
      else event ∷ rest

  unfoldable pub close : BacktestFeed D → BacktestFeed D
  close f = record f { events = []; loaded = false }

  unfoldable pub new_memory_feed : List (MarketEvent D) → String → MemoryFeed D
  new_memory_feed events symbol = record { events = events; symbol = symbol }

  unfoldable pub add_event : MarketEvent D → MemoryFeed D → MemoryFeed D
  add_event event f = record f { events = f.events ++ (event ∷ []) }

  unfoldable pub renamed : String → MarketEvent D → MarketEvent D
  renamed symbol event = if str_eq symbol "" then event else record event { symbol = symbol }

  unfoldable pub sent :
      (ℕ → Bool) → ℕ → String → String → List (MarketEvent D) → List (MarketEvent D)
  sent done_at k fixed symbol [] = []
  sent done_at k fixed symbol (event ∷ events) =
      let skipped = sent done_at k fixed symbol events in
      let rest = sent done_at (suc k) fixed symbol events in
      if not (str_eq symbol "") && not (str_eq event.symbol symbol) && not (str_eq fixed symbol)
      then skipped
      else if done_at k
      then []
      else renamed fixed event ∷ rest

  unfoldable pub memory_feed : MarketDataFeed D (MemoryFeed D) (ℕ → Bool)
  memory_feed = record {
    subscribe = λ done_at symbol f. (f, ok (sent done_at 0 f.symbol symbol f.events));
    close = λ f. f;
    name = λ _. "memory";
  }

-- What a subscription to the feed of a file reads from outside: the rows of the file at a path, where
-- it can be opened, and when the context is done.
pub record Outside : Type 0 where
  pub files : String → Option (List Read)
  pub done_at : ℕ → Bool

module _ {ℓ} {D : Type ℓ} ⦃d : Decimal D⦄ (parsers : Parsers D) where
  -- `load`
  unfoldable pub load : (String → Option (List Read)) → BacktestFeed D → Result (BacktestFeed D)
  load files f = or_error (files f.file_path) open_failed >>= λ reads.
      parse_csv parsers f.symbol reads >>= λ events.
      ok (record f { events = events; loaded = true })

  unfoldable pub subscribe :
      Outside → String → BacktestFeed D → BacktestFeed D × Result (List (MarketEvent D))
  subscribe outside symbol f =
      let after = if f.loaded then ok f else load outside.files f in
      elim after [
        | ok f' ↦ (f', ok (matching outside.done_at 0 symbol f'.events))
        | err reason ↦ (f, err reason)
        | panic ↦ (f, panic)
      ]

  unfoldable pub backtest_feed : MarketDataFeed D (BacktestFeed D) Outside
  backtest_feed = record { subscribe = subscribe; close = close; name = λ _. "backtest" }

module _ {ℓ} {D : Type ℓ} ⦃d : Decimal D⦄ where
  unfoldable pub indicator_calculator : IndicatorCalculator D (Calculator.Calculator D)
  indicator_calculator = record { on_bar = Calculator.on_bar; reset = Calculator.reset }
