-- ===== src/MarketData/Candles.antt =====
-- backend/app/market_data/candle_builder.py with the ticks and candles of schemas.py. Prices are
-- in units of 10^-6, cumulative volumes are counts, instants are microseconds.
pub mod Frame
pub mod Prices
pub mod Times
pub mod Volume
pub mod Startup
pub mod Flush
mod Tests
use trader_ai.Common.{
  ℕ, ◌+◌, ◌-◌, String, Bool, true, false, ◌&&◌, not, Option, none, some, List, [], ◌∷◌, ◌++◌, ltb,
  nat_eq, is_some, if◌then◌else◌, ℤ, max_ℤ, min_ℤ, Dict, lookup, insert, erase, DateTime, naive,
  aware, floor_minute,
}

pub record NormalizedTick : Type 0 where
  pub instrument_token : ℕ
  pub last_price : ℤ
  pub volume : Option ℕ
  pub exchange_timestamp : DateTime

pub record CompletedCandle : Type 0 where
  pub instrument_id : ℕ
  pub timeframe : String
  pub started_at : ℕ
  pub open_price : ℤ
  pub high_price : ℤ
  pub low_price : ℤ
  pub close_price : ℤ
  pub volume : ℕ
  pub source : String

pub record WorkingCandle : Type 0 where
  pub instrument_id : ℕ
  pub timeframe : String
  pub started_at : ℕ
  pub open_price : ℤ
  pub high_price : ℤ
  pub low_price : ℤ
  pub close_price : ℤ
  pub volume : ℕ
  pub volume_complete : Bool

abbrev pub update_price : WorkingCandle → ℤ → WorkingCandle
update_price c price = record c {
  high_price = max_ℤ c.high_price price;
  low_price = min_ℤ c.low_price price;
  close_price = price;
}

abbrev pub add_volume_delta : WorkingCandle → ℕ → WorkingCandle
add_volume_delta c delta = record c { volume = c.volume + delta }

abbrev pub mark_incomplete : WorkingCandle → WorkingCandle
mark_incomplete c = record c { volume_complete = false }

abbrev pub kite_websocket_source : String
kite_websocket_source = "KITE_WEBSOCKET"

abbrev pub complete : WorkingCandle → CompletedCandle
complete c = record {
  instrument_id = c.instrument_id;
  timeframe = c.timeframe;
  started_at = c.started_at;
  open_price = c.open_price;
  high_price = c.high_price;
  low_price = c.low_price;
  close_price = c.close_price;
  volume = c.volume;
  source = kite_websocket_source;
}

-- `OneMinuteCandleBuilder`
pub record Builder : Type 0 where
  pub timeframe : String
  pub working : Dict WorkingCandle
  pub last_tick_at : Dict ℕ
  pub last_cumulative_volume : Dict ℕ

-- `__init__`
abbrev pub new_builder : String → Builder
new_builder timeframe = record {
  timeframe = timeframe;
  working = [];
  last_tick_at = [];
  last_cumulative_volume = [];
}

-- `_as_utc`
abbrev pub as_utc : DateTime → ℕ
as_utc (naive t) = t
as_utc (aware t) = t

-- `_new_working_candle`
abbrev pub new_working_candle : ℕ → String → ℕ → NormalizedTick → Bool → WorkingCandle
new_working_candle instrument_id timeframe started_at tick volume_complete = record {
  instrument_id = instrument_id;
  timeframe = timeframe;
  started_at = started_at;
  open_price = tick.last_price;
  high_price = tick.last_price;
  low_price = tick.last_price;
  close_price = tick.last_price;
  volume = 0;
  volume_complete = volume_complete;
}

-- `_has_positive_volume_delta`
abbrev pub has_positive_volume_delta : Option ℕ → Option ℕ → Bool
has_positive_volume_delta (some previous) (some current) = ltb previous current
has_positive_volume_delta (some previous) none = false
has_positive_volume_delta none current = false

-- The two early returns of `accept_tick`: an older tick, and a repeated one.
abbrev pub is_ignored : Option ℕ → Option ℕ → ℕ → Option ℕ → Bool
is_ignored none previous_volume tick_time volume = false
is_ignored (some last) previous_volume tick_time volume =
    if ltb tick_time last
    then true
    else nat_eq tick_time last && not (has_positive_volume_delta previous_volume volume)

-- `_roll_to_minute`, on the candle in progress: whether it is dropped, and what is emitted.
abbrev pub rolls : Option WorkingCandle → ℕ → Bool
rolls none minute = false
rolls (some c) minute = not (nat_eq c.started_at minute)

abbrev pub rolled : Option WorkingCandle → ℕ → List CompletedCandle
rolled none minute = []
rolled (some c) minute =
    if nat_eq c.started_at minute then [] else if c.volume_complete then complete c ∷ [] else []

unfoldable pub roll_to_minute : Builder → ℕ → ℕ → Builder × List CompletedCandle
roll_to_minute b token minute =
    let current = lookup token b.working in
    (
      (if rolls current minute then record b { working = erase token b.working } else b),
      rolled current minute,
    )

-- The candle of the tick's minute after the price is taken.
abbrev pub open_or_update :
    Option WorkingCandle → ℕ → String → ℕ → NormalizedTick → Bool → WorkingCandle
open_or_update none instrument_id timeframe minute tick known =
    new_working_candle instrument_id timeframe minute tick known
open_or_update (some c) instrument_id timeframe minute tick known = update_price c tick.last_price

-- The three ways in which `accept_tick` ends: no volume, a baseline or a reset, a delta.
abbrev pub take_volume : WorkingCandle → Option ℕ → Option ℕ → WorkingCandle
take_volume c previous none = c
take_volume c none (some v) = mark_incomplete c
take_volume c (some p) (some v) = if ltb v p then mark_incomplete c else add_volume_delta c (v - p)

abbrev pub store_volume : ℕ → Option ℕ → Dict ℕ → Dict ℕ
store_volume token none d = d
store_volume token (some v) d = insert token v d

-- `accept_tick` past its early returns.
unfoldable pub aggregate : Builder → NormalizedTick → ℕ → Builder × List CompletedCandle
unfolding roll_to_minute
aggregate b tick instrument_id =
    let token = tick.instrument_token in
    let tick_time = as_utc tick.exchange_timestamp in
    let previous_volume = lookup token b.last_cumulative_volume in
    let minute = floor_minute tick_time in
    let (b', completed) = roll_to_minute b token minute in
    let current =
      open_or_update (lookup token b'.working) instrument_id b'.timeframe minute tick
        (is_some previous_volume) in
    (
      record b' {
        working = insert token (take_volume current previous_volume tick.volume) b'.working;
        last_tick_at = insert token tick_time b'.last_tick_at;
        last_cumulative_volume = store_volume token tick.volume b'.last_cumulative_volume;
      },
      completed,
    )

unfoldable pub accept_tick : Builder → NormalizedTick → ℕ → Builder × List CompletedCandle
accept_tick b tick instrument_id =
    let token = tick.instrument_token in
    let skip =
      is_ignored (lookup token b.last_tick_at) (lookup token b.last_cumulative_volume)
        (as_utc tick.exchange_timestamp) tick.volume in
    if skip then (b, []) else aggregate b tick instrument_id

-- The ticks of one callback, each with the id of its instrument, as `handle_ticks` passes them on.
unfoldable pub accept_ticks : Builder → List (NormalizedTick × ℕ) → Builder × List CompletedCandle
accept_ticks b [] = (b, [])
accept_ticks b ((tick, instrument_id) ∷ rest) =
    let (b', first) = accept_tick b tick instrument_id in
    let (b'', more) = accept_ticks b' rest in (b'', first ++ more)

-- The test of `flush_completed_before`.
abbrev pub is_flushable : ℕ → WorkingCandle → Bool
is_flushable cutoff_minute c = ltb c.started_at cutoff_minute && c.volume_complete

abbrev pub flush_loop : ℕ → Dict WorkingCandle → Dict WorkingCandle × List CompletedCandle
flush_loop cutoff_minute [] = ([], [])
flush_loop cutoff_minute ((token, c) ∷ rest) =
    let (kept, completed) = flush_loop cutoff_minute rest in
    if is_flushable cutoff_minute c
    then (kept, complete c ∷ completed)
    else ((token, c) ∷ kept, completed)

unfoldable pub flush_completed_before : Builder → DateTime → Builder × List CompletedCandle
flush_completed_before b cutoff =
    let (kept, completed) = flush_loop (floor_minute (as_utc cutoff)) b.working in
    (record b { working = kept }, completed)

unfoldable pub invalidate_after_stream_gap : Builder → Builder
invalidate_after_stream_gap b = record b {
  working = [];
  last_tick_at = [];
  last_cumulative_volume = [];
}
