-- ===== src/MarketData/Candles/Frame.antt =====
-- The builder seen as a family of aggregators, one for each instrument token.
use trader_ai.Common.{
  ℕ, String, ◌≡◌, sym, ap, subst, ◌≢◌, inl, inr, Bool, false, Option, none, some, List, [], ◌∷◌,
  arith, nat_eq, if◌then◌else◌, nat_eq_iff, nat_eq_refl, Bool-cases, is_some, All, All-append, Dict,
  lookup, lookup-insert, lookup-erase, IsKeyed, insert-IsKeyed, erase-IsKeyed, floor_minute,
}
use trader_ai.MarketData.Candles.{
  NormalizedTick, CompletedCandle, WorkingCandle, Builder, as_utc, is_ignored, rolls, rolled,
  open_or_update, take_volume, store_volume, aggregate, accept_tick, accept_ticks,
}

-- What the builder holds of one token.
pub record TokenState : Type 0 where
  pub working : Option WorkingCandle
  pub last : Option ℕ
  pub cumulative : Option ℕ

abbrev pub token_view : Builder → ℕ → TokenState
token_view b k = record {
  working = lookup k b.working;
  last = lookup k b.last_tick_at;
  cumulative = lookup k b.last_cumulative_volume;
}

abbrev pub after_roll : Option WorkingCandle → ℕ → Option WorkingCandle
after_roll old minute = if rolls old minute then none else old

abbrev pub later_volume : Option ℕ → Option ℕ → Option ℕ
later_volume previous none = previous
later_volume previous (some v) = some v

abbrev pub ignored : TokenState → NormalizedTick → Bool
ignored s tick = is_ignored s.last s.cumulative (as_utc tick.exchange_timestamp) tick.volume

-- One tick of the token, on its own state alone.
unfoldable pub token_aggregate :
    TokenState → String → NormalizedTick → ℕ → TokenState × List CompletedCandle
token_aggregate s timeframe tick instrument_id =
    let tick_time = as_utc tick.exchange_timestamp in
    let minute = floor_minute tick_time in
    let current =
      open_or_update (after_roll s.working minute) instrument_id timeframe minute tick
        (is_some s.cumulative) in
    (
      record {
        working = some (take_volume current s.cumulative tick.volume);
        last = some tick_time;
        cumulative = later_volume s.cumulative tick.volume;
      },
      rolled s.working minute,
    )

unfoldable pub token_step :
    TokenState → String → NormalizedTick → ℕ → TokenState × List CompletedCandle
unfolding token_aggregate
token_step s timeframe tick instrument_id =
    if is_ignored s.last s.cumulative (as_utc tick.exchange_timestamp) tick.volume
    then (s, [])
    else token_aggregate s timeframe tick instrument_id

module _ (b : Builder) (tick : NormalizedTick) (instrument_id : ℕ) where
  abbrev minute_of : ℕ
  minute_of = floor_minute (as_utc tick.exchange_timestamp)

  lookup-store_volume :
      (j token : ℕ) (v : Option ℕ) (d : Dict ℕ)
      → lookup j (store_volume token v d)
        ≡ (if nat_eq token j then later_volume (lookup j d) v else lookup j d)
  lookup-store_volume j token none d = ground arith
  lookup-store_volume j token (some v) d = ground (arith, lookup-insert j token v d)

  view-aggregate :
      (
        token_view (aggregate b tick instrument_id).0 tick.instrument_token,
        (aggregate b tick instrument_id).1,
      )
      ≡ token_aggregate (token_view b tick.instrument_token) b.timeframe tick instrument_id
  unfolding aggregate token_aggregate
  view-aggregate = elim (Bool-cases (rolls (lookup tick.instrument_token b.working) minute_of)) [
    | inl r ↦ rw r (simp (lookup-insert, lookup-erase, nat_eq_refl, lookup-store_volume))
    | inr r ↦ rw r (simp (lookup-insert, nat_eq_refl, lookup-store_volume))
  ]

  -- One tick: what is emitted, and the state of its token, are those of the token alone.
  pub view-accept_tick :
      (
        token_view (accept_tick b tick instrument_id).0 tick.instrument_token,
        (accept_tick b tick instrument_id).1,
      )
      ≡ token_step (token_view b tick.instrument_token) b.timeframe tick instrument_id
  unfolding accept_tick token_step
  view-accept_tick =
      elim (Bool-cases (
        is_ignored (lookup tick.instrument_token b.last_tick_at)
          (lookup tick.instrument_token b.last_cumulative_volume) (as_utc tick.exchange_timestamp)
          tick.volume)) [ inl r ↦ rw r | inr r ↦ rw r view-aggregate ]

  other_view-aggregate :
      (j : ℕ)
      → nat_eq tick.instrument_token j ≡ false
      → token_view (aggregate b tick instrument_id).0 j ≡ token_view b j
  unfolding aggregate
  other_view-aggregate j h =
      elim (Bool-cases (rolls (lookup tick.instrument_token b.working) minute_of)) [
        | inl r ↦ rw r (simp (lookup-insert, lookup-erase, lookup-store_volume, h))
        | inr r ↦ rw r (simp (lookup-insert, lookup-store_volume, h))
      ]

  -- The state of every other token stays as it was.
  pub other_view-accept_tick :
      (j : ℕ)
      → tick.instrument_token ≢ j
      → token_view (accept_tick b tick instrument_id).0 j ≡ token_view b j
  unfolding accept_tick
  other_view-accept_tick j h =
      elim (Bool-cases (
        is_ignored (lookup tick.instrument_token b.last_tick_at)
          (lookup tick.instrument_token b.last_cumulative_volume) (as_utc tick.exchange_timestamp)
          tick.volume)) [ inl r ↦ rw r | inr r ↦ rw r (other_view-aggregate j (ground arith)) ]

  pub accept_tick-IsKeyed : IsKeyed b.working → IsKeyed (accept_tick b tick instrument_id).0.working
  unfolding accept_tick aggregate
  accept_tick-IsKeyed h =
      grind (arith, insert-IsKeyed {0}, erase-IsKeyed tick.instrument_token b.working h)

-- A property of each token's state that one tick keeps is kept by any sequence of ticks.
module _ {P : TokenState → Type 0}
    (step : (s : TokenState) (timeframe : String) (tick : NormalizedTick) (instrument_id : ℕ)
      → P s
      → P (token_step s timeframe tick instrument_id).0) where
  accept_tick-keeps :
      (b : Builder) (tick : NormalizedTick) (instrument_id : ℕ)
      → ((k : ℕ) → P (token_view b k))
      → (k : ℕ) → P (token_view (accept_tick b tick instrument_id).0 k)
  accept_tick-keeps b tick instrument_id h k = elim (Bool-cases (nat_eq tick.instrument_token k)) [
    | inl same ↦
        subst (λ j. P (token_view (accept_tick b tick instrument_id).0 j))
          ((nat_eq_iff tick.instrument_token k).0 same)
          (subst P (sym (ap (λ r. r.0) (view-accept_tick b tick instrument_id))) (
            step (token_view b tick.instrument_token) b.timeframe tick instrument_id
              (h tick.instrument_token)))
    | inr differs ↦
        subst P (sym (other_view-accept_tick b tick instrument_id k (ground arith))) (h k)
  ]

  pub accept_ticks-keeps :
      (b : Builder) (ticks : List (NormalizedTick × ℕ))
      → ((k : ℕ) → P (token_view b k))
      → (k : ℕ) → P (token_view (accept_ticks b ticks).0 k)
  unfolding accept_ticks
  accept_ticks-keeps b [] h k = h k
  accept_ticks-keeps b ((tick, instrument_id) ∷ rest) h k =
      accept_ticks-keeps (accept_tick b tick instrument_id).0 rest
        (accept_tick-keeps b tick instrument_id h) k

-- What every tick emits under `P` satisfies `Q`, so all that a sequence emits does.
module _ (P : TokenState → Type 0) (Q : CompletedCandle → Type 0)
    (step : (s : TokenState) (timeframe : String) (tick : NormalizedTick) (instrument_id : ℕ)
      → P s
      → P (token_step s timeframe tick instrument_id).0)
    (emit : (s : TokenState) (timeframe : String) (tick : NormalizedTick) (instrument_id : ℕ)
      → P s
      → All Q (token_step s timeframe tick instrument_id).1) where
  pub accept_ticks-emits :
      (b : Builder) (ticks : List (NormalizedTick × ℕ))
      → ((k : ℕ) → P (token_view b k))
      → All Q (accept_ticks b ticks).1
  unfolding accept_ticks
  accept_ticks-emits b [] h = tt
  accept_ticks-emits b ((tick, instrument_id) ∷ rest) h =
      All-append Q (accept_tick b tick instrument_id).1
        (accept_ticks (accept_tick b tick instrument_id).0 rest).1
        (subst (All Q) (sym (ap (λ r. r.1) (view-accept_tick b tick instrument_id))) (
          emit (token_view b tick.instrument_token) b.timeframe tick instrument_id
            (h tick.instrument_token)))
        (accept_ticks-emits (accept_tick b tick instrument_id).0 rest
          (accept_tick-keeps step b tick instrument_id h))
