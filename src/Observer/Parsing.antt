-- ===== src/Observer/Parsing.antt =====
-- What the feed of a CSV file, internal/observer/backtest_feed.go, makes of the rows of its file.
use quant_bot.Prelude.{
  Bool, ℕ, suc, String, true, ◌||◌, Option, none, some, List, [], ◌∷◌, ◌++◌, if◌then◌else◌, str_eq,
}
use quant_bot.Prelude.Int.{ℤ}
use quant_bot.Decimal.{Decimal}
use quant_bot.Types.{Result, ok, err, read_failed, MarketEvent}
use quant_bot.Observer.Feeds.{
  Parsers, Read, row, failed, is_header, parse_timestamp, parse_volume, BacktestFeed,
}

-- The rows of a file that can be read to its end.
pub rows_of : List Read → Option (List (List String))
rows_of [] = some []
rows_of (failed ∷ reads) = none
rows_of (row fields ∷ reads) = elim (rows_of reads) [
  | none ↦ none
  | some rows ↦ some (fields ∷ rows)
]

-- The rows behind a header, where the first row is one.
without_header : List (List String) → List (List String)
without_header [] = []
without_header (first ∷ rows) = if is_header first then rows else first ∷ rows

module _ {ℓ} {D : Type ℓ} ⦃d : Decimal D⦄ where
  event_from :
      String → ℤ → Option ℕ → Option D → Option D → Option D → Option D → Option (MarketEvent D)
  event_from symbol volume (some t) (some o) (some h) (some l) (some c) = some (record {
    symbol = symbol;
    timestamp = t;
    open_price = o;
    high = h;
    low = l;
    close = c;
    volume = volume;
    atr = d.zero_dec;
    std_dev = d.zero_dec;
  })
  event_from _ _ _ _ _ _ _ = none

  module _ (parsers : Parsers D) where
    -- The event of a row: it needs a time and four prices that can be parsed.
    readable : String → List String → Option (MarketEvent D)
    readable symbol (t ∷ o ∷ h ∷ l ∷ c ∷ rest) =
        event_from symbol (parse_volume parsers rest) (parse_timestamp parsers t)
          (parsers.new_from_string o) (parsers.new_from_string h) (parsers.new_from_string l)
          (parsers.new_from_string c)
    readable _ _ = none

    events_of : String → List (List String) → List (MarketEvent D)
    events_of symbol [] = []
    events_of symbol (fields ∷ rows) = elim (readable symbol fields) [
      | none ↦ events_of symbol rows
      | some event ↦ event ∷ events_of symbol rows
    ]

    add_found : Option (MarketEvent D) → List (MarketEvent D) → List (MarketEvent D)
    add_found none events = events
    add_found (some event) events = events ++ (event ∷ [])

    parsed :
        String → List (MarketEvent D) → Option (List (List String)) → Result (List (MarketEvent D))
    parsed symbol events none = err read_failed
    parsed symbol events (some rows) = ok (events ++ events_of symbol rows)

    -- What a file comes to: an error, or the events of the rows behind its header.
    contents : String → Option (List (List String)) → Result (List (MarketEvent D))
    contents symbol none = err read_failed
    contents symbol (some rows) = ok (events_of symbol (without_header rows))

    -- The events before the first one at which the context is done.
    until : (ℕ → Bool) → ℕ → List (MarketEvent D) → List (MarketEvent D)
    until done_at k [] = []
    until done_at k (event ∷ events) =
        let rest = until done_at (suc k) events in if done_at k then [] else event ∷ rest

    -- A subscription to the feed's own symbol, or to all of them, receives these, another one nothing.
    received : (ℕ → Bool) → ℕ → String → String → List (MarketEvent D) → List (MarketEvent D)
    received done_at k symbol wanted events =
        if str_eq wanted "" || str_eq symbol wanted then until done_at k events else []

    -- What the first subscription to the feed of a file comes to.
    pub delivered :
        (ℕ → Bool)
        → String
        → BacktestFeed D
        → Option (List (List String))
        → BacktestFeed D × Result (List (MarketEvent D))
    delivered done_at wanted f none = (f, err read_failed)
    delivered done_at wanted f (some rows) =
        let events = events_of f.symbol (without_header rows) in
        (
          record f { events = events; loaded = true },
          ok (received done_at 0 f.symbol wanted events),
        )
