-- ===== src/MarketData/Candles/Tests.antt =====
-- Runs of the candle builder, and the theorems at concrete ticks.
use trader_ai.Common.{
  ℕ, ◌+◌, ◌*◌, ◌≡◌, refl, true, none, some, List, [], ◌∷◌, map, arith, length, All, lookup, insert,
  erase, IsKeyed, ℤ, pos, second_us, minute_us, floor_minute, aware,
}
use trader_ai.MarketData.Candles.{
  NormalizedTick, CompletedCandle, WorkingCandle, Builder, new_builder, new_working_candle,
  aggregate, accept_tick, accept_ticks, flush_completed_before, invalidate_after_stream_gap,
}
use trader_ai.MarketData.Candles.Frame.{token_view}
use trader_ai.MarketData.Candles.Prices.{IsPricedBar, HasPriced, accept_ticks-priced}
use trader_ai.MarketData.Candles.Times.{
  IsTimed, IsOver, Ascends, accept_ticks-Ascends, accept_tick-IsOver,
}
use trader_ai.MarketData.Candles.Volume.{accept_ticks-volume}
use trader_ai.MarketData.Candles.Startup.{gap-silent}
use trader_ai.MarketData.Candles.Flush.{IsFlushed, IsParted, flush-partition}

abbrev tick_at : ℕ → ℕ → ℕ → NormalizedTick
tick_at seconds price volume = record {
  instrument_token = 7;
  last_price = pos price;
  volume = some volume;
  exchange_timestamp = aware (seconds * second_us);
}

-- Two minutes and the start of a third; one tick is out of order.
abbrev session : List (NormalizedTick × ℕ)
session =
    (tick_at 10 100 1000, 1)
    ∷ (tick_at 50 101 1100, 1)
    ∷ (tick_at 60 102 1150, 1)
    ∷ (tick_at 90 99 1200, 1)
    ∷ (tick_at 80 500 1190, 1)
    ∷ (tick_at 121 103 1300, 1)
    ∷ []

abbrev fresh : Builder
fresh = new_builder "1minute"

session_emits :
    map {B = ℕ × ℤ × ℤ × ℕ}
      (λ (c : CompletedCandle). (c.started_at, c.high_price, c.low_price, c.volume))
      (accept_ticks fresh session).1
    ≡ (minute_us, pos 102, pos 99, 100) ∷ []
unfolding accept_ticks accept_tick aggregate lookup insert erase floor_minute
session_emits = refl

accept_ticks-priced_example :
    All IsPricedBar (accept_ticks fresh session).1
    × ((k : ℕ) → HasPriced (token_view (accept_ticks fresh session).0 k))
unfolding lookup
accept_ticks-priced_example = accept_ticks-priced fresh session (λ k. tt)

accept_ticks-Ascends_example :
    Ascends 0 (accept_ticks fresh session).1 (token_view (accept_ticks fresh session).0 7)
unfolding lookup
accept_ticks-Ascends_example = accept_ticks-Ascends 0 7 fresh session (omega arith) tt refl

accept_tick-IsOver_example :
    ((k : ℕ) → IsTimed (token_view (accept_ticks fresh session).0 k))
    × All
        (IsOver (200 * second_us))
        (accept_tick (accept_ticks fresh session).0 (tick_at 200 1 1) 1).1
unfolding lookup
accept_tick-IsOver_example = accept_tick-IsOver fresh session (tick_at 200 1 1) 1 (λ k. tt)

gap-silent_example :
    (accept_ticks
      (invalidate_after_stream_gap fresh)
      ((tick_at 10 100 1000, 1) ∷ (tick_at 50 101 1100, 1) ∷ (tick_at 60 102 1150, 1) ∷ [])).1
    ≡ []
unfolding floor_minute
gap-silent_example =
    gap-silent 0 7 fresh ((tick_at 10 100 1000, 1) ∷ (tick_at 50 101 1100, 1) ∷ [])
      (tick_at 60 102 1150) 1 (omega arith) (omega arith) refl

abbrev in_progress : WorkingCandle
in_progress = record (new_working_candle 1 "1minute" 0 (tick_at 10 100 1000) true) { volume = 40 }

abbrev running : Builder
running = record {
  timeframe = "1minute";
  working = (7, in_progress) ∷ [];
  last_tick_at = (7, 10 * second_us) ∷ [];
  last_cumulative_volume = (7, 1000) ∷ [];
}

abbrev climb : List (NormalizedTick × ℕ)
climb = (tick_at 20 100 1060, 1) ∷ (tick_at 50 101 1100, 1) ∷ []

accept_ticks-volume_example :
    ((accept_ticks running climb).1 ≡ [])
    × ((d : WorkingCandle) × (lookup 7 (accept_ticks running climb).0.working ≡ some d)
        × (d.volume + 1000 ≡ 40 + 1100)
        × (d.started_at ≡ 0)
        × (d.volume_complete ≡ true))
unfolding lookup floor_minute
accept_ticks-volume_example =
    accept_ticks-volume running climb 7 0 (10 * second_us) 1000 1100 in_progress (omega arith)
      (
        1060,
        refl,
        omega arith,
        omega arith,
        refl,
        (1100, refl, omega arith, omega arith, refl, refl),
      )
      refl refl refl refl

flush-partition_example :
    let b = (accept_ticks running ((tick_at 20 100 1060, 1) ∷ [])).0 in
    let m = floor_minute (61 * second_us) in
    let r = flush_completed_before b (aware (61 * second_us)) in
    ((k : ℕ) (c : WorkingCandle)
      → lookup k b.working ≡ some c
      → IsParted m c (lookup k r.0.working) r.1)
    × All (IsFlushed m b.working) r.1
    × (length r.1 + length r.0.working ≡ length b.working)
    × ((k : ℕ) → lookup k b.working ≡ none → lookup k r.0.working ≡ none)
    × (r.0 ≡ record b { working = r.0.working })
unfolding lookup IsKeyed
flush-partition_example =
    flush-partition running ((tick_at 20 100 1060, 1) ∷ []) (aware (61 * second_us)) (refl, tt)

-- The whole candle is emitted, and one of the cutoff's own minute is not.
flush_emits :
    (length (flush_completed_before running (aware (61 * second_us))).1 ≡ 1)
    × (length (flush_completed_before running (aware (59 * second_us))).1 ≡ 0)
unfolding flush_completed_before floor_minute
flush_emits = (refl, refl)
