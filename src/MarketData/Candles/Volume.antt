-- ===== src/MarketData/Candles/Volume.antt =====
-- The volume of a candle against the cumulative volumes of its ticks.
use trader_ai.Common.{
  ℕ, ◌+◌, ◌-◌, ◌≤◌, String, ◌≡◌, refl, sym, ap, subst, inl, inr, Bool, true, false, some, List, [],
  ◌∷◌, arith, ltb, nat_eq, Bool-cases, lookup, floor_minute,
}
use trader_ai.MarketData.Candles.{
  NormalizedTick, CompletedCandle, WorkingCandle, update_price, add_volume_delta, Builder, as_utc,
  rolled, open_or_update, take_volume, accept_tick, accept_ticks,
}
use trader_ai.MarketData.Candles.Times.{AreOf}
use trader_ai.MarketData.Candles.Frame.{
  TokenState, token_view, after_roll, ignored, token_step, view-accept_tick,
}

-- Ticks of the minute `m`, none older than `t` or than one before it, whose cumulative volumes
-- never fall, from `p` to `q`.
abbrev pub IsRun : ℕ → ℕ → ℕ → List (NormalizedTick × ℕ) → ℕ → Type 0
IsRun m t p [] q = p ≡ q
IsRun m t p ((tick, _) ∷ rest) q =
    (v : ℕ) × (tick.volume ≡ some v)
    × (p ≤ v)
    × (t ≤ as_utc tick.exchange_timestamp)
    × (floor_minute (as_utc tick.exchange_timestamp) ≡ m)
    × IsRun m (as_utc tick.exchange_timestamp) v rest q

-- A candle of the minute `m` in progress, with the volume that came in since it held `u` at the
-- cumulative volume `p`.
pub record Accrues (s : TokenState) (m t p u : ℕ) (full : Bool) : Type 0 where
  pub candle : WorkingCandle
  pub held : s.working ≡ some candle
  pub minute : candle.started_at ≡ m
  pub at : s.last ≡ some t
  pub base : s.cumulative ≡ some p
  pub volume : candle.volume ≡ u
  pub complete_as : candle.volume_complete ≡ full

-- The candle goes on in its minute, with the rise added.
goes_on :
    (c : WorkingCandle) (m p v instrument_id : ℕ) (timeframe : String) (tick : NormalizedTick)
    → c.started_at ≡ m
    → p ≤ v
    → (take_volume
          (open_or_update (after_roll (some c) m) instrument_id timeframe m tick true)
          (some p)
          (some v)
        ≡ add_volume_delta (update_price c tick.last_price) (v - p))
      × (rolled (some c) m ≡ [])
goes_on c m p v instrument_id timeframe tick e le =
    rw (let r : nat_eq c.started_at m ≡ true = ground arith in r)
      (rw (let l : ltb v p ≡ false = ground arith in l) (refl, refl))

token_step-Accrues :
    (s : TokenState) (timeframe : String) (tick : NormalizedTick) (instrument_id : ℕ)
    (m t p u v : ℕ) (full : Bool)
    → Accrues s m t p u full
    → tick.volume ≡ some v
    → p ≤ v
    → t ≤ as_utc tick.exchange_timestamp
    → floor_minute (as_utc tick.exchange_timestamp) ≡ m
    → Accrues
        (token_step s timeframe tick instrument_id).0
        m
        (as_utc tick.exchange_timestamp)
        v
        (u + (v - p))
        full
      × ((token_step s timeframe tick instrument_id).1 ≡ [])
unfolding token_step
token_step-Accrues s timeframe tick instrument_id m t p u v full a ev le lt em =
    elim (Bool-cases (ignored s tick)) [
      | inl r ↦ rw r (
        record {
          candle = a.candle;
          held = a.held;
          minute = a.minute;
          at = ground (arith, a.at, a.base);
          base = ground (arith, a.at, a.base);
          volume = ground (arith, a.volume, a.at, a.base);
          complete_as = a.complete_as;
        },
        refl,
      )
      | inr r ↦
          let on = goes_on a.candle m p v instrument_id timeframe tick a.minute le in
          rw (r, em, a.held, a.base)
            (simp ev (
              record {
                candle = add_volume_delta (update_price a.candle tick.last_price) (v - p);
                held = ap some on.0;
                minute = a.minute;
                at = refl;
                base = refl;
                volume = omega (arith, a.volume);
                complete_as = a.complete_as;
              },
              on.1,
            ))
    ]

accept_tick-Accrues :
    (b : Builder) (tick : NormalizedTick) (instrument_id k m t p u v : ℕ) (full : Bool)
    → tick.instrument_token ≡ k
    → Accrues (token_view b k) m t p u full
    → tick.volume ≡ some v
    → p ≤ v
    → t ≤ as_utc tick.exchange_timestamp
    → floor_minute (as_utc tick.exchange_timestamp) ≡ m
    → Accrues
        (token_view (accept_tick b tick instrument_id).0 k)
        m
        (as_utc tick.exchange_timestamp)
        v
        (u + (v - p))
        full
      × ((accept_tick b tick instrument_id).1 ≡ [])
accept_tick-Accrues b tick instrument_id k m t p u v full ek a ev le lt em =
    subst
      (λ j.
        Accrues (token_view (accept_tick b tick instrument_id).0 j) m
          (as_utc tick.exchange_timestamp) v (u + (v - p)) full
        × ((accept_tick b tick instrument_id).1 ≡ []))
      ek
      (subst
        (λ (r : TokenState × List CompletedCandle).
          Accrues r.0 m (as_utc tick.exchange_timestamp) v (u + (v - p)) full × (r.1 ≡ []))
        (sym (view-accept_tick b tick instrument_id))
        (token_step-Accrues (token_view b tick.instrument_token) b.timeframe tick instrument_id m t
          p u v full (subst (λ j. Accrues (token_view b j) m t p u full) (sym ek) a) ev le lt em))

run-Accrues :
    (b : Builder) (ticks : List (NormalizedTick × ℕ)) (k m t p u q : ℕ) (full : Bool)
    → AreOf k ticks
    → IsRun m t p ticks q
    → Accrues (token_view b k) m t p u full
    → ((l : ℕ) × Accrues (token_view (accept_ticks b ticks).0 k) m l q (u + (q - p)) full)
      × ((accept_ticks b ticks).1 ≡ [])
      × (p ≤ q)
unfolding accept_ticks
run-Accrues b [] k m t p u q full of run a = (
  (
    t,
    subst (λ z. Accrues (token_view b k) m t q z full) (let e : u ≡ u + (q - p) = omega arith in e)
        (subst (λ z. Accrues (token_view b k) m t z u full) run a),
  ),
  refl,
  omega arith,
)
run-Accrues b ((tick, instrument_id) ∷ rest) k m t p u q full of (v, ev, le, lt, em, run) a =
    let one = accept_tick-Accrues b tick instrument_id k m t p u v full of.0 a ev le lt em in
    let more =
      run-Accrues (accept_tick b tick instrument_id).0 rest k m (as_utc tick.exchange_timestamp) v
        (u + (v - p)) q full of.1 run one.0 in
    (
      (
        more.0.0,
        subst
            (λ z.
              Accrues (token_view (accept_ticks (accept_tick b tick instrument_id).0 rest).0 k) m
                more.0.0 q z full)
            (let e : u + (v - p) + (q - v) ≡ u + (q - p) = omega (arith, more.2) in e) more.0.1,
      ),
      rw one.1 more.1,
      omega (arith, more.2),
    )

-- Ticks of one token and minute, not out of order, whose cumulative volume rises from `p` to `q`,
-- emit nothing; they add `q - p` to the volume of the candle in progress and leave its minute and
-- its completeness flag as they were.
pub accept_ticks-volume :
    (b : Builder) (ticks : List (NormalizedTick × ℕ)) (k m t p q : ℕ) (c : WorkingCandle)
    → AreOf k ticks
    → IsRun m t p ticks q
    → lookup k b.working ≡ some c
    → c.started_at ≡ m
    → lookup k b.last_tick_at ≡ some t
    → lookup k b.last_cumulative_volume ≡ some p
    → ((accept_ticks b ticks).1 ≡ [])
      × ((d : WorkingCandle) × (lookup k (accept_ticks b ticks).0.working ≡ some d)
          × (d.volume + p ≡ c.volume + q)
          × (d.started_at ≡ m)
          × (d.volume_complete ≡ c.volume_complete))
accept_ticks-volume b ticks k m t p q c of run ew em el ec =
    let a : Accrues (token_view b k) m t p c.volume c.volume_complete = record {
      candle = c;
      held = ew;
      minute = em;
      at = el;
      base = ec;
      volume = refl;
      complete_as = refl;
    } in
    let r = run-Accrues b ticks k m t p c.volume q c.volume_complete of run a in
    let f = r.0.1 in
    (r.1, (f.candle, f.held, omega (arith, f.volume, r.2), f.minute, f.complete_as))
