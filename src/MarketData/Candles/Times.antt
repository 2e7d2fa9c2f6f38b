-- ===== src/MarketData/Candles/Times.antt =====
-- accept_tick of backend/app/market_data/candle_builder.py: the minutes of the candles in progress
-- and of the candles that leave the builder.
use trader_ai.Common.{
  ℕ, ◌+◌, ◌≤◌, String, ◌≡◌, refl, sym, subst, inl, inr, Bool, false, Option, none, some, List, [],
  ◌∷◌, ◌++◌, arith, nat_eq, Bool-cases, is_some, All, minute_us, floor_minute, floor_minute_mono,
  minute_over, later_minute,
}
use trader_ai.MarketData.Candles.{
  NormalizedTick, CompletedCandle, WorkingCandle, Builder, as_utc, rolled, open_or_update,
  take_volume, accept_tick, accept_ticks,
}
use trader_ai.MarketData.Candles.Frame.{
  TokenState, token_view, after_roll, ignored, token_step, view-accept_tick, accept_ticks-keeps,
}

-- A candle in progress started in the minute of the last tick, which is known.
abbrev pub IsTimed? : Option WorkingCandle → Option ℕ → Type 0
IsTimed? none last = Unit
IsTimed? (some c) none = ⊥
IsTimed? (some c) (some t) = c.started_at ≡ floor_minute t

abbrev pub IsTimed : TokenState → Type 0
IsTimed s = IsTimed? s.working s.last

started_at-open_or_update :
    (o : Option WorkingCandle) (instrument_id : ℕ) (timeframe : String) (minute : ℕ)
    (tick : NormalizedTick) (known : Bool) (previous volume : Option ℕ)
    → (take_volume
        (open_or_update (after_roll o minute) instrument_id timeframe minute tick known)
        previous
        volume).started_at
      ≡ minute
started_at-open_or_update none instrument_id timeframe minute tick known previous volume =
    ground arith
started_at-open_or_update (some c) instrument_id timeframe minute tick known previous volume =
    ground arith

token_step-IsTimed :
    (s : TokenState) (timeframe : String) (tick : NormalizedTick) (instrument_id : ℕ)
    → IsTimed s
    → IsTimed (token_step s timeframe tick instrument_id).0
unfolding token_step
token_step-IsTimed s timeframe tick instrument_id h = elim (Bool-cases (ignored s tick)) [
  | inl r ↦ rw r h
  | inr r ↦ rw r (
      started_at-open_or_update s.working instrument_id timeframe
        (floor_minute (as_utc tick.exchange_timestamp)) tick (is_some s.cumulative) s.cumulative
        tick.volume)
]

not_older :
    (s : TokenState) (tick : NormalizedTick) (t : ℕ)
    → s.last ≡ some t
    → ignored s tick ≡ false
    → t ≤ as_utc tick.exchange_timestamp
not_older s tick t e r = ground arith

-- A candle that a tick emits ended before the tick.
abbrev pub IsOver : ℕ → CompletedCandle → Type 0
IsOver t c = c.started_at + minute_us ≤ t

rolled-IsOver :
    (o : Option WorkingCandle) (last t : ℕ)
    → IsTimed? o (some last)
    → last ≤ t
    → All (IsOver t) (rolled o (floor_minute t))
rolled-IsOver none last t h le = tt
rolled-IsOver (some c) last t h le = elim (Bool-cases (nat_eq c.started_at (floor_minute t))) [
  | inl r ↦ rw r tt
  | inr r ↦ rw r (elim (Bool-cases c.volume_complete) [
    | inl full ↦ rw full (minute_over last t c.started_at h le (ground arith), tt)
    | inr part ↦ rw part tt
  ])
]

rolled?-IsOver :
    (o : Option WorkingCandle) (last : Option ℕ) (t : ℕ)
    → IsTimed? o last
    → ((l : ℕ) → last ≡ some l → l ≤ t)
    → All (IsOver t) (rolled o (floor_minute t))
rolled?-IsOver none last t h le = tt
rolled?-IsOver (some c) none t h le = absurd h
rolled?-IsOver (some c) (some l) t h le = rolled-IsOver (some c) l t h (le l refl)

token_step-IsOver :
    (s : TokenState) (timeframe : String) (tick : NormalizedTick) (instrument_id : ℕ)
    → IsTimed s
    → All (IsOver (as_utc tick.exchange_timestamp)) (token_step s timeframe tick instrument_id).1
unfolding token_step
token_step-IsOver s timeframe tick instrument_id h = elim (Bool-cases (ignored s tick)) [
  | inl r ↦ rw r tt
  | inr r ↦ rw r (
      rolled?-IsOver s.working s.last (as_utc tick.exchange_timestamp) h
        (λ l e. not_older s tick l e r))
]

-- `lo` is not after the minute of the last tick; before the first tick it is zero.
abbrev pub IsFrom? : ℕ → Option ℕ → Type 0
IsFrom? lo none = lo ≡ 0
IsFrom? lo (some t) = lo ≤ floor_minute t

abbrev pub IsFrom : ℕ → TokenState → Type 0
IsFrom lo s = IsFrom? lo s.last

-- Candles that follow one another by a minute at least, from `lo` on, and end before the state's
-- own minute.
abbrev pub Ascends : ℕ → List CompletedCandle → TokenState → Type 0
Ascends lo [] s = IsFrom lo s
Ascends lo (c ∷ cs) s = (lo ≤ c.started_at) × Ascends (c.started_at + minute_us) cs s

Ascends-append :
    (lo : ℕ) (xs ys : List CompletedCandle) (s u : TokenState)
    → Ascends lo xs s
    → ((k : ℕ) → IsFrom k s → Ascends k ys u)
    → Ascends lo (xs ++ ys) u
Ascends-append lo [] ys s u h next = next lo h
Ascends-append lo (c ∷ xs) ys s u h next =
    (h.0, Ascends-append (c.started_at + minute_us) xs ys s u h.1 next)

rolled-Ascends :
    (lo : ℕ) (o : Option WorkingCandle) (last : Option ℕ) (t : ℕ) (u : TokenState)
    → IsTimed? o last
    → IsFrom? lo last
    → ((l : ℕ) → last ≡ some l → l ≤ t)
    → u.last ≡ some t
    → Ascends lo (rolled o (floor_minute t)) u
rolled-Ascends lo none none t u h f le e = rw (e, f) (omega arith)
rolled-Ascends lo none (some l) t u h f le e =
    rw e (omega (arith, floor_minute_mono l t (le l refl)))
rolled-Ascends lo (some c) none t u h f le e = absurd h
rolled-Ascends lo (some c) (some l) t u h f le e =
    elim (Bool-cases (nat_eq c.started_at (floor_minute t))) [
      | inl r ↦ rw (r, e) (omega (arith, floor_minute_mono l t (le l refl)))
      | inr r ↦ rw r (elim (Bool-cases c.volume_complete) [
        | inl full ↦
            rw (full, e) (omega arith, later_minute l t c.started_at h (le l refl) (ground arith))
        | inr part ↦ rw (part, e) (omega (arith, floor_minute_mono l t (le l refl)))
      ])
    ]

token_step-Ascends :
    (lo : ℕ) (s : TokenState) (timeframe : String) (tick : NormalizedTick) (instrument_id : ℕ)
    → IsTimed s
    → IsFrom lo s
    → Ascends lo
        (token_step s timeframe tick instrument_id).1
        (token_step s timeframe tick instrument_id).0
unfolding token_step
token_step-Ascends lo s timeframe tick instrument_id h f = elim (Bool-cases (ignored s tick)) [
  | inl r ↦ rw r f
  | inr r ↦ rw r (
      rolled-Ascends lo s.working s.last (as_utc tick.exchange_timestamp) _ h f
        (λ l e. not_older s tick l e r) refl)
]

accept_tick-Ascends :
    (lo : ℕ) (b : Builder) (tick : NormalizedTick) (instrument_id : ℕ)
    → IsTimed (token_view b tick.instrument_token)
    → IsFrom lo (token_view b tick.instrument_token)
    → Ascends lo
        (accept_tick b tick instrument_id).1
        (token_view (accept_tick b tick instrument_id).0 tick.instrument_token)
      × IsTimed (token_view (accept_tick b tick instrument_id).0 tick.instrument_token)
accept_tick-Ascends lo b tick instrument_id h f =
    let s = token_view b tick.instrument_token in
    (
      subst (λ (r : TokenState × List CompletedCandle). Ascends lo r.1 r.0)
          (sym (view-accept_tick b tick instrument_id))
          (token_step-Ascends lo s b.timeframe tick instrument_id h f),
      subst (λ (r : TokenState × List CompletedCandle). IsTimed r.0)
          (sym (view-accept_tick b tick instrument_id))
          (token_step-IsTimed s b.timeframe tick instrument_id h),
    )

-- All the ticks are of the token `k`.
abbrev pub AreOf : ℕ → List (NormalizedTick × ℕ) → Type 0
AreOf k = All (λ (p : NormalizedTick × ℕ). p.0.instrument_token ≡ k)

-- Whatever the order of the ticks of one token, the candles that they emit ascend by a minute at
-- least, none starts before `lo`, and the last ends before the minute of the candle in progress.
pub accept_ticks-Ascends :
    (lo k : ℕ) (b : Builder) (ticks : List (NormalizedTick × ℕ))
    → AreOf k ticks
    → IsTimed (token_view b k)
    → IsFrom lo (token_view b k)
    → Ascends lo (accept_ticks b ticks).1 (token_view (accept_ticks b ticks).0 k)
unfolding accept_ticks
accept_ticks-Ascends lo k b [] of h f = f
accept_ticks-Ascends lo k b ((tick, instrument_id) ∷ rest) of h f =
    let r = accept_tick b tick instrument_id in
    let now =
      subst (λ j. Ascends lo r.1 (token_view r.0 j) × IsTimed (token_view r.0 j)) of.0
        (accept_tick-Ascends lo b tick instrument_id
          (subst (λ j. IsTimed (token_view b j)) (sym of.0) h)
          (subst (λ j. IsFrom lo (token_view b j)) (sym of.0) f)) in
    Ascends-append lo r.1 (accept_ticks r.0 rest).1 (token_view r.0 k) _ now.0
      (λ l g. accept_ticks-Ascends l k r.0 rest of.1 now.1 g)

-- In every builder that ticks have made from a timed one, each candle in progress is of the
-- minute of its token's last tick, and one more tick emits only candles whose minute is over.
pub accept_tick-IsOver :
    (b : Builder) (ticks : List (NormalizedTick × ℕ)) (tick : NormalizedTick) (instrument_id : ℕ)
    → ((k : ℕ) → IsTimed (token_view b k))
    → ((k : ℕ) → IsTimed (token_view (accept_ticks b ticks).0 k))
      × All
          (IsOver (as_utc tick.exchange_timestamp))
          (accept_tick (accept_ticks b ticks).0 tick instrument_id).1
accept_tick-IsOver b ticks tick instrument_id h =
    let keeps = accept_ticks-keeps token_step-IsTimed b ticks h in
    let b' = (accept_ticks b ticks).0 in
    (
      keeps,
      subst
          (λ (r : TokenState × List CompletedCandle).
            All (IsOver (as_utc tick.exchange_timestamp)) r.1)
          (sym (view-accept_tick b' tick instrument_id))
          (token_step-IsOver (token_view b' tick.instrument_token) b'.timeframe tick instrument_id
            (keeps tick.instrument_token)),
    )
