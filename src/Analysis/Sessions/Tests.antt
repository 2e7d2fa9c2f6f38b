-- ===== src/Analysis/Sessions/Tests.antt =====
-- Two minutes from 09:15 IST, after a candle of the day before.
use trader_ai.Common.{
  ℕ, ◌+◌, ◌*◌, ◌≡◌, refl, ◌↔◌, true, some, List, [], ◌∷◌, arith, length, ◌-ℤ◌, pos, minute_us,
  day_us, ist_date, ist_time,
}
use trader_ai.Paper.Schemas.{CompletedBar}
use trader_ai.Analysis.Sessions.{
  build_feature_input, has_continuous_current_session_prefix, one_minute, opening_range_complete,
  current_session_complete_through_latest, candle_continuity_ok, opening_range,
}
use trader_ai.Analysis.Sessions.Prefix.{
  IsWhole, current_session_complete-IsWhole, complete_session-covers,
}
use trader_ai.Analysis.Sessions.Ranges.{IsOpening, IsExact, opening_range-IsExact}

abbrev bar : ℕ → ℕ → ℕ → CompletedBar
bar started_at low high = record {
  instrument_id = 1;
  symbol = "NSE:SBIN";
  timeframe = "1minute";
  started_at = started_at;
  open_price = pos low;
  high_price = pos high;
  low_price = pos low;
  close_price = pos high;
  volume = 10;
}

-- 03:45 UTC is 09:15 in India.
abbrev first : CompletedBar
first = bar (day_us + 225 * minute_us) 98 100

abbrev second : CompletedBar
second = bar (day_us + 226 * minute_us) 99 103

abbrev session : List CompletedBar
session = first ∷ second ∷ []

abbrev all_bars : List CompletedBar
all_bars = second ∷ bar (300 * minute_us) 90 91 ∷ first ∷ []

whole : current_session_complete_through_latest session "1minute" ≡ true
unfolding current_session_complete_through_latest has_continuous_current_session_prefix ist_time
whole = refl

range : opening_range session (pos 15) ≡ some (pos 103, pos 98)
unfolding opening_range ist_date ist_time ◌-ℤ◌
range = refl

prior : length (build_feature_input all_bars).prior_session_bars ≡ 1
unfolding build_feature_input ist_date ist_time
prior = refl

current_session_complete-IsWhole_example :
    (current_session_complete_through_latest session "1minute" ≡ true)
    ↔ ((one_minute "1minute" ≡ true) × IsWhole session)
current_session_complete-IsWhole_example = current_session_complete-IsWhole session "1minute"

complete_session-covers_example :
    (candle_continuity_ok session "1minute" ≡ true)
    × (opening_range_complete session (pos 2) "1minute" ≡ true)
complete_session-covers_example =
    complete_session-covers session "1minute" 2 whole (omega arith) (omega arith)

opening_range-IsExact_example :
    IsExact (IsOpening second (pos 15)) session (opening_range session (pos 15))
opening_range-IsExact_example = opening_range-IsExact session (pos 15) second refl
