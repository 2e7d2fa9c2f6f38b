-- ===== src/MarketData/Candles/Prices.antt =====
-- The order of the four prices of a candle, from the ticks to what is emitted.
use trader_ai.Common.{
  ℕ, String, inl, inr, Bool, Option, none, some, List, arith, ltb, nat_eq, Bool-cases, is_some, All,
  ℤ, ◌≤ℤ◌, floor_minute,
}
use trader_ai.MarketData.Candles.{
  NormalizedTick, CompletedCandle, WorkingCandle, update_price, Builder, as_utc, rolled,
  open_or_update, take_volume, accept_ticks,
}
use trader_ai.MarketData.Candles.Frame.{
  TokenState, token_view, after_roll, ignored, token_step, accept_ticks-keeps, accept_ticks-emits,
}

pub record IsPriced (c : WorkingCandle) : Type 0 where
  pub low_open : c.low_price ≤ℤ c.open_price
  pub open_high : c.open_price ≤ℤ c.high_price
  pub low_close : c.low_price ≤ℤ c.close_price
  pub close_high : c.close_price ≤ℤ c.high_price

pub record IsPricedBar (c : CompletedCandle) : Type 0 where
  pub low_open : c.low_price ≤ℤ c.open_price
  pub open_high : c.open_price ≤ℤ c.high_price
  pub low_close : c.low_price ≤ℤ c.close_price
  pub close_high : c.close_price ≤ℤ c.high_price

abbrev IsPriced? : Option WorkingCandle → Type 0
IsPriced? none = Unit
IsPriced? (some c) = IsPriced c

abbrev pub HasPriced : TokenState → Type 0
HasPriced s = IsPriced? s.working

update_price-IsPriced : (c : WorkingCandle) (p : ℤ) → IsPriced c → IsPriced (update_price c p)
update_price-IsPriced c p h = record {
  low_open = ground arith;
  open_high = ground arith;
  low_close = ground arith;
  close_high = ground arith;
}

open_or_update-IsPriced :
    (o : Option WorkingCandle) (instrument_id : ℕ) (timeframe : String) (minute : ℕ)
    (tick : NormalizedTick) (known : Bool)
    → IsPriced? o
    → IsPriced (open_or_update o instrument_id timeframe minute tick known)
open_or_update-IsPriced none instrument_id timeframe minute tick known h = omega arith
open_or_update-IsPriced (some c) instrument_id timeframe minute tick known h =
    update_price-IsPriced c tick.last_price h

take_volume-IsPriced :
    (c : WorkingCandle) (previous v : Option ℕ) → IsPriced c → IsPriced (take_volume c previous v)
take_volume-IsPriced c previous none h = h
take_volume-IsPriced c none (some v) h = omega arith
take_volume-IsPriced c (some p) (some v) h = elim (Bool-cases (ltb v p)) [
  | inl r ↦ rw r (omega arith)
  | inr r ↦ rw r (omega arith)
]

after_roll-IsPriced :
    (o : Option WorkingCandle) (minute : ℕ) → IsPriced? o → IsPriced? (after_roll o minute)
after_roll-IsPriced none minute h = tt
after_roll-IsPriced (some c) minute h = elim (Bool-cases (nat_eq c.started_at minute)) [
  | inl r ↦ rw r h
  | inr r ↦ rw r tt
]

token_step-HasPriced :
    (s : TokenState) (timeframe : String) (tick : NormalizedTick) (instrument_id : ℕ)
    → HasPriced s
    → HasPriced (token_step s timeframe tick instrument_id).0
unfolding token_step
token_step-HasPriced s timeframe tick instrument_id h = elim (Bool-cases (ignored s tick)) [
  | inl r ↦ rw r h
  | inr r ↦
      let minute = floor_minute (as_utc tick.exchange_timestamp) in
      rw r (
        take_volume-IsPriced _ s.cumulative tick.volume (
          open_or_update-IsPriced (after_roll s.working minute) instrument_id timeframe minute tick
            (is_some s.cumulative) (after_roll-IsPriced s.working minute h)))
]

rolled-IsPricedBar :
    (o : Option WorkingCandle) (minute : ℕ) → IsPriced? o → All IsPricedBar (rolled o minute)
rolled-IsPricedBar none minute h = tt
rolled-IsPricedBar (some c) minute h = elim (Bool-cases (nat_eq c.started_at minute)) [
  | inl r ↦ rw r tt
  | inr r ↦ rw r (elim (Bool-cases c.volume_complete) [
    | inl full ↦ rw full (omega arith, tt)
    | inr part ↦ rw part tt
  ])
]

token_step-IsPricedBar :
    (s : TokenState) (timeframe : String) (tick : NormalizedTick) (instrument_id : ℕ)
    → HasPriced s
    → All IsPricedBar (token_step s timeframe tick instrument_id).1
unfolding token_step
token_step-IsPricedBar s timeframe tick instrument_id h = elim (Bool-cases (ignored s tick)) [
  | inl r ↦ rw r tt
  | inr r ↦ rw r (rolled-IsPricedBar s.working (floor_minute (as_utc tick.exchange_timestamp)) h)
]

-- From a builder whose candles enclose their open and close prices between low and high, every
-- candle that a sequence of ticks emits does so too, and so does every candle still in progress.
pub accept_ticks-priced :
    (b : Builder) (ticks : List (NormalizedTick × ℕ))
    → ((k : ℕ) → HasPriced (token_view b k))
    → All IsPricedBar (accept_ticks b ticks).1
      × ((k : ℕ) → HasPriced (token_view (accept_ticks b ticks).0 k))
accept_ticks-priced b ticks h = (
  accept_ticks-emits HasPriced IsPricedBar token_step-HasPriced token_step-IsPricedBar b ticks h,
  accept_ticks-keeps token_step-HasPriced b ticks h,
)
