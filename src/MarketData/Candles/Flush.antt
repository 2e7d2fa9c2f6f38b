-- ===== src/MarketData/Candles/Flush.antt =====
-- flush_completed_before of backend/app/market_data/candle_builder.py.
use trader_ai.Common.{
  ℕ, ◌+◌, ◌<◌, ◌≡◌, refl, sym, ◌∙◌, subst, ◌⊎◌, inl, inr, true, Option, none, some, List, [], ◌∷◌,
  arith, nat_eq, if◌then◌else◌, Bool-cases, some_inj, length, All, Any, All-mono, Dict, lookup,
  IsKeyed, DateTime, floor_minute,
}
use trader_ai.MarketData.Candles.{
  NormalizedTick, CompletedCandle, WorkingCandle, complete, Builder, as_utc, accept_tick,
  accept_ticks, is_flushable, flush_loop, flush_completed_before,
}
use trader_ai.MarketData.Candles.Frame.{accept_tick-IsKeyed}

-- What stays of a token's candle.
abbrev kept_candle : ℕ → Option WorkingCandle → Option WorkingCandle
kept_candle cutoff_minute none = none
kept_candle cutoff_minute (some c) = if is_flushable cutoff_minute c then none else some c

-- What is emitted, in the order of the dict.
abbrev flushed_candles : ℕ → Dict WorkingCandle → List CompletedCandle
flushed_candles cutoff_minute [] = []
flushed_candles cutoff_minute ((_, c) ∷ d) =
    let rest = flushed_candles cutoff_minute d in
    if is_flushable cutoff_minute c then complete c ∷ rest else rest

kept_none :
    (m k : ℕ) (d : Dict WorkingCandle) → lookup k d ≡ none → lookup k (flush_loop m d).0 ≡ none
unfolding lookup
kept_none m k [] h = refl
kept_none m k ((i, c) ∷ d) h = ground (arith, kept_none m k d)

lookup-flush_loop :
    (m k : ℕ) (d : Dict WorkingCandle)
    → IsKeyed d
    → lookup k (flush_loop m d).0 ≡ kept_candle m (lookup k d)
unfolding lookup IsKeyed
lookup-flush_loop m k [] h = refl
lookup-flush_loop m k ((i, c) ∷ d) h = ground (arith, kept_none m k d, lookup-flush_loop m k d h.1)

flush_loop-emits : (m : ℕ) (d : Dict WorkingCandle) → (flush_loop m d).1 ≡ flushed_candles m d
flush_loop-emits m [] = refl
flush_loop-emits m ((i, c) ∷ d) = ground (arith, flush_loop-emits m d)

-- A whole candle of a minute before the cutoff's.
abbrev pub IsOverdue : ℕ → WorkingCandle → Type 0
IsOverdue m c = (c.started_at < m) × (c.volume_complete ≡ true)

overdue : (m : ℕ) (c : WorkingCandle) → is_flushable m c ≡ true → IsOverdue m c
overdue m c h = ground arith

flushable : (m : ℕ) (c : WorkingCandle) → IsOverdue m c → is_flushable m c ≡ true
flushable m c h = ground arith

abbrev pub IsFlushed : ℕ → Dict WorkingCandle → CompletedCandle → Type 0
IsFlushed m d e =
    (k : ℕ) × (c : WorkingCandle) × (lookup k d ≡ some c) × IsOverdue m c × (e ≡ complete c)

later_key :
    (k i : ℕ) (c w : WorkingCandle) (d : Dict WorkingCandle)
    → lookup i d ≡ none
    → lookup k d ≡ some c
    → lookup k ((i, w) ∷ d) ≡ some c
unfolding lookup
later_key k i c w d free h = elim (Bool-cases (nat_eq i k)) [
  | inl e ↦ let same_ : i ≡ k = ground arith in absurd (cc (rw same_ at free))
  | inr e ↦ ground arith
]

first_key : (i : ℕ) (w : WorkingCandle) (d : Dict WorkingCandle) → lookup i ((i, w) ∷ d) ≡ some w
unfolding lookup
first_key i w d = ground arith

flushed_candles-IsFlushed :
    (m : ℕ) (d : Dict WorkingCandle) → IsKeyed d → All (IsFlushed m d) (flushed_candles m d)
unfolding IsKeyed
flushed_candles-IsFlushed m [] h = tt
flushed_candles-IsFlushed m ((i, w) ∷ d) h =
    let rest =
      All-mono (flushed_candles m d)
        (λ e (k, c, found, o, same_). (k, c, later_key k i c w d h.0 found, o, same_))
        (flushed_candles-IsFlushed m d h.1) in
    elim (Bool-cases (is_flushable m w)) [
      | inl e ↦ rw e ((i, w, first_key i w d, overdue m w e, refl), rest)
      | inr e ↦ rw e rest
    ]

flushed_candles-has :
    (m k : ℕ) (c : WorkingCandle) (d : Dict WorkingCandle)
    → is_flushable m c ≡ true
    → lookup k d ≡ some c
    → Any (λ e. e ≡ complete c) (flushed_candles m d)
unfolding lookup
flushed_candles-has m k c [] f h = cc
flushed_candles-has m k c ((i, w) ∷ d) f h = elim (Bool-cases (nat_eq i k)) [
  | inl e ↦ let same_ : w ≡ c = some_inj (rw e at h) in rw (same_, f) (inl refl)
  | inr e ↦
      let rest = flushed_candles-has m k c d f (rw e at h) in
      elim (Bool-cases (is_flushable m w)) [ inl g ↦ rw g (inr rest) | inr g ↦ rw g rest ]
]

flush_loop-length :
    (m : ℕ) (d : Dict WorkingCandle)
    → length (flush_loop m d).1 + length (flush_loop m d).0 ≡ length d
flush_loop-length m [] = refl
flush_loop-length m ((i, c) ∷ d) = ground (arith, flush_loop-length m d)

-- What a flush does with the candle of a token.
abbrev pub IsParted : ℕ → WorkingCandle → Option WorkingCandle → List CompletedCandle → Type 0
IsParted m c after emitted =
    (IsOverdue m c × (after ≡ none) × Any (λ e. e ≡ complete c) emitted)
    ⊎ ((IsOverdue m c → ⊥) × (after ≡ some c))

flush_loop-IsParted :
    (m k : ℕ) (c : WorkingCandle) (d : Dict WorkingCandle)
    → IsKeyed d
    → lookup k d ≡ some c
    → IsParted m c (lookup k (flush_loop m d).0) (flush_loop m d).1
flush_loop-IsParted m k c d h found =
    let kept = lookup-flush_loop m k d h in
    let now : kept_candle m (lookup k d) ≡ (if is_flushable m c then none else some c) =
      rw found refl in
    elim (Bool-cases (is_flushable m c)) [
      | inl e ↦ inl (
        overdue m c e,
        kept ∙ now ∙ rw e refl,
        subst (Any (λ x. x ≡ complete c)) (sym (flush_loop-emits m d))
            (flushed_candles-has m k c d e found),
      )
      | inr e ↦ inr ((λ o. absurd (cc (e, flushable m c o))), kept ∙ now ∙ rw e refl)
    ]

accept_ticks-IsKeyed :
    (b : Builder) (ticks : List (NormalizedTick × ℕ))
    → IsKeyed b.working
    → IsKeyed (accept_ticks b ticks).0.working
unfolding accept_ticks
accept_ticks-IsKeyed b [] h = h
accept_ticks-IsKeyed b ((tick, i) ∷ rest) h =
    accept_ticks-IsKeyed (accept_tick b tick i).0 rest (accept_tick-IsKeyed b tick i h)

-- A flush of a builder that ticks have made from one with distinct tokens: each candle of a token is
-- either complete in volume and of a minute before the cutoff's, and then it is emitted and no
-- longer kept, or it is not, and then it is kept. All that is emitted are such candles, each once,
-- no token gains a candle, and nothing else of the builder changes.
pub flush-partition :
    (b0 : Builder) (ticks : List (NormalizedTick × ℕ)) (cutoff : DateTime)
    → IsKeyed b0.working
    → let b = (accept_ticks b0 ticks).0 in
      let m = floor_minute (as_utc cutoff) in
      let r = flush_completed_before b cutoff in
      ((k : ℕ) (c : WorkingCandle)
        → lookup k b.working ≡ some c
        → IsParted m c (lookup k r.0.working) r.1)
      × All (IsFlushed m b.working) r.1
      × (length r.1 + length r.0.working ≡ length b.working)
      × ((k : ℕ) → lookup k b.working ≡ none → lookup k r.0.working ≡ none)
      × (r.0 ≡ record b { working = r.0.working })
unfolding flush_completed_before
flush-partition b0 ticks cutoff h =
    let b = (accept_ticks b0 ticks).0 in
    let m = floor_minute (as_utc cutoff) in
    let keyed = accept_ticks-IsKeyed b0 ticks h in
    (
      (λ k c found. flush_loop-IsParted m k c b.working keyed found),
      subst (All (IsFlushed m b.working)) (sym (flush_loop-emits m b.working))
          (flushed_candles-IsFlushed m b.working keyed),
      flush_loop-length m b.working,
      (λ k free. kept_none m k b.working free),
      refl,
    )
