-- ===== src/Analysis/Sessions.antt =====
-- The session scopes and data-quality facts of backend/app/analysis/feature_builder.py, and the
-- ranges and the continuity test of backend/app/analysis/indicators.py.
pub mod Prefix
pub mod Scopes
pub mod Ranges
mod Tests
use trader_ai.Common.{
  ℕ, ◌+◌, ◌-◌, ◌*◌, ◌/◌, max, String, Bool, true, false, not, ◌&&◌, ◌||◌, Option, none, some, List,
  [], ◌∷◌, str_eq, ltb, leb, nat_eq, if◌then◌else◌, is_some, length, take, is_empty, keep_if,
  last_of, ℤ, pos_part, ◌-ℤ◌, ltb_ℤ, leb_ℤ, max_ℤ, min_ℤ, pos, second_us, minute_us, ist_date,
  ist_time,
}
use trader_ai.Paper.Schemas.{CompletedBar}
use trader_ai.Paper.Simulator.{sort_bars}
use trader_ai.Scanner.Schemas.{IndicatorSnapshot, DataQuality}

-- 09:15
abbrev pub nse_open : ℕ
nse_open = (9 * 60 + 15) * minute_us

abbrev pub session_date : CompletedBar → ℕ
session_date bar = ist_date bar.started_at

abbrev pub is_regular_session_bar : CompletedBar → Bool
is_regular_session_bar bar = leb nse_open (ist_time bar.started_at)

abbrev pub is_of_day : ℕ → CompletedBar → Bool
is_of_day day bar = nat_eq (session_date bar) day

abbrev pub later_of : ℕ → Option ℕ → ℕ
later_of d none = d
later_of d (some e) = max d e

-- `sorted({...})[-1]` over the days before `day`.
abbrev pub latest_before : ℕ → List CompletedBar → Option ℕ
latest_before day [] = none
latest_before day (b ∷ bs) =
    let rest = latest_before day bs in
    if ltb (session_date b) day
    then some (elim rest [ none ↦ session_date b | some d ↦ max (session_date b) d ])
    else rest

pub record FeatureInput : Type 0 where
  pub all_bars : List CompletedBar
  pub trailing_bars : List CompletedBar
  pub current_session_bars : List CompletedBar
  pub prior_session_bars : List CompletedBar

abbrev pub bars_of : Option ℕ → List CompletedBar → List CompletedBar
bars_of none bars = []
bars_of (some day) bars = keep_if (is_of_day day) bars

abbrev pub split_at : Option CompletedBar → List CompletedBar → List CompletedBar → FeatureInput
split_at none ordered regular = record {
  all_bars = [];
  trailing_bars = [];
  current_session_bars = [];
  prior_session_bars = [];
}
split_at (some newest) ordered regular = record {
  all_bars = ordered;
  trailing_bars = regular;
  current_session_bars = keep_if (is_of_day (session_date newest)) regular;
  prior_session_bars = bars_of (latest_before (session_date newest) regular) regular;
}

unfoldable pub build_feature_input : List CompletedBar → FeatureInput
build_feature_input bars =
    let ordered = sort_bars bars in
    split_at (last_of ordered) ordered (keep_if is_regular_session_bar ordered)

abbrev pub session_start_available : List CompletedBar → Bool
session_start_available [] = false
session_start_available (b ∷ bs) = nat_eq (ist_time b.started_at) nse_open

-- The loop of `_has_continuous_current_session_prefix` over `bars[:required_minutes]`.
abbrev pub each_minute : ℕ → List CompletedBar → Bool
each_minute expected [] = true
each_minute expected (b ∷ bs) =
    nat_eq b.started_at expected && each_minute (expected + minute_us) bs

abbrev pub prefix_from_first : ℕ → List CompletedBar → Bool
prefix_from_first n [] = true
prefix_from_first n (b ∷ bs) = each_minute b.started_at (take n (b ∷ bs))

unfoldable pub has_continuous_current_session_prefix : List CompletedBar → ℕ → Bool
has_continuous_current_session_prefix bars required_minutes =
    if ltb (length bars) required_minutes || not (session_start_available bars)
    then false
    else prefix_from_first required_minutes bars

abbrev pub one_minute : String → Bool
one_minute timeframe = str_eq timeframe "1minute"

unfoldable pub opening_range_complete : List CompletedBar → ℤ → String → Bool
opening_range_complete bars opening_range_minutes timeframe =
    if not (one_minute timeframe) || ltb_ℤ opening_range_minutes (pos 1)
    then false
    else has_continuous_current_session_prefix bars (pos_part opening_range_minutes)

unfoldable pub current_session_complete_through_latest : List CompletedBar → String → Bool
current_session_complete_through_latest bars timeframe =
    if not (one_minute timeframe) || is_empty bars
    then false
    else has_continuous_current_session_prefix bars (length bars)

-- One step of `candle_continuity_ok`; seconds are cut off, as `int` does.
abbrev pub is_next : CompletedBar → CompletedBar → Bool
is_next previous current =
    not (nat_eq (session_date previous) (session_date current))
    || (leb previous.started_at current.started_at
        && nat_eq ((current.started_at - previous.started_at) / second_us) 60)

abbrev pub pairs_continue : List CompletedBar → Bool
pairs_continue [] = true
pairs_continue (b ∷ []) = true
pairs_continue (b ∷ c ∷ rest) = is_next b c && pairs_continue (c ∷ rest)

unfoldable pub candle_continuity_ok : List CompletedBar → String → Bool
candle_continuity_ok bars timeframe =
    if not (one_minute timeframe) || ltb (length bars) 2 then true else pairs_continue bars

-- `max(bar.high_price for bar in selected), min(bar.low_price for bar in selected)`
abbrev pub highest : CompletedBar → List CompletedBar → ℤ
highest b [] = b.high_price
highest b (c ∷ cs) = max_ℤ b.high_price (highest c cs)

abbrev pub lowest : CompletedBar → List CompletedBar → ℤ
lowest b [] = b.low_price
lowest b (c ∷ cs) = min_ℤ b.low_price (lowest c cs)

abbrev pub high_low : List CompletedBar → Option (ℤ × ℤ)
high_low [] = none
high_low (b ∷ bs) = some (highest b bs, lowest b bs)

-- `_minutes_since_open`
abbrev pub minutes_since_open : CompletedBar → ℤ
minutes_since_open bar = pos (ist_time bar.started_at / minute_us) -ℤ pos (9 * 60 + 15)

abbrev pub in_opening_range : ℕ → ℤ → CompletedBar → Bool
in_opening_range day range_minutes bar =
    is_of_day day bar
    && (leb_ℤ (pos 0) (minutes_since_open bar) && ltb_ℤ (minutes_since_open bar) range_minutes)

unfoldable pub opening_range : List CompletedBar → ℤ → Option (ℤ × ℤ)
opening_range bars range_minutes = elim (last_of bars) [
  | none ↦ none
  | some newest ↦ high_low (keep_if (in_opening_range (session_date newest) range_minutes) bars)
]

unfoldable pub previous_day_high_low : List CompletedBar → Option (ℤ × ℤ)
previous_day_high_low bars = elim (last_of bars) [
  | none ↦ none
  | some newest ↦ high_low (bars_of (latest_before (session_date newest) bars) bars)
]

abbrev pub all_known : List (Option ℤ) → Bool
all_known [] = true
all_known (x ∷ xs) = is_some x && all_known xs

-- The `DataQuality` of `build_feature_snapshot`.
unfoldable pub data_quality : FeatureInput → IndicatorSnapshot → Bool → String → ℤ → DataQuality
data_quality input i has_quote timeframe opening_range_minutes = record {
  history_complete =
      all_known
        (i.ema_9 ∷ i.ema_20 ∷ i.ema_50 ∷ i.rsi_14 ∷ i.atr_14 ∷ i.vwap ∷ i.volume_ratio ∷ []);
  quote_fresh = has_quote;
  spread_available = is_some i.spread_pct;
  candle_continuity_ok = candle_continuity_ok input.current_session_bars timeframe;
  session_start_available = session_start_available input.current_session_bars;
  opening_range_complete =
      opening_range_complete input.current_session_bars opening_range_minutes timeframe;
  current_session_complete_through_latest =
      current_session_complete_through_latest input.current_session_bars timeframe;
}
