-- ===== src/Analysis/Sessions/Prefix.antt =====
-- Sessions without a missing minute.
use trader_ai.Common.{
  ℕ, zero, suc, ◌+◌, ◌≤◌, String, ◌≡◌, refl, sym, ap, ◌∙◌, subst, ◌≢◌, ◌↔◌, Bool, true, false, not,
  ◌&&◌, ◌||◌, List, [], ◌∷◌, arith, ltb, nat_eq, if◌then◌else◌, nat_eq_iff, &&-split, length, take,
  pos, minute_us, ist_time,
}
use trader_ai.Paper.Schemas.{CompletedBar}
use trader_ai.Analysis.Sessions.{
  nse_open, each_minute, has_continuous_current_session_prefix, one_minute, opening_range_complete,
  current_session_complete_through_latest, is_next, pairs_continue, candle_continuity_ok,
}

-- One bar in each minute from an instant on.
abbrev pub IsUnbroken : ℕ → List CompletedBar → Type 0
IsUnbroken expected [] = Unit
IsUnbroken expected (b ∷ bs) = (b.started_at ≡ expected) × IsUnbroken (expected + minute_us) bs

-- A session from 09:15 with no minute missing.
abbrev pub IsWhole : List CompletedBar → Type 0
IsWhole [] = ⊥
IsWhole (b ∷ bs) = (ist_time b.started_at ≡ nse_open) × IsUnbroken b.started_at (b ∷ bs)

each_minute-IsUnbroken :
    (expected : ℕ) (bars : List CompletedBar)
    → (each_minute expected bars ≡ true) ↔ IsUnbroken expected bars
each_minute-IsUnbroken expected [] = (λ h. tt, λ u. refl)
each_minute-IsUnbroken expected (b ∷ bs) =
    let later = each_minute-IsUnbroken (expected + minute_us) bs in
    let now = nat_eq_iff b.started_at expected in
    (
      (λ h. let (p, q) = &&-split (nat_eq b.started_at expected) _ h in (now.0 p, later.0 q)),
      (λ u. rw (now.1 u.0) (later.1 u.1)),
    )

take-all : (bars : List CompletedBar) → take (length bars) bars ≡ bars
take-all [] = refl
take-all (b ∷ bs) = ap (◌∷◌ b) (take-all bs)

IsUnbroken-take :
    (n expected : ℕ) (bars : List CompletedBar)
    → IsUnbroken expected bars
    → IsUnbroken expected (take n bars)
IsUnbroken-take zero expected bars u = tt
IsUnbroken-take (suc n) expected [] u = tt
IsUnbroken-take (suc n) expected (b ∷ bs) u = (u.0, IsUnbroken-take n (expected + minute_us) bs u.1)

guards :
    (m l s p : Bool)
    → l ≡ false
    → (if not m || false then false else if l || not s then false else p) ≡ (m && (s && p))
guards true l true p h = rw h refl
guards true l false p h = rw h refl
guards false l s p h = refl

no_session : (timeframe : String) → current_session_complete_through_latest [] timeframe ≢ true
unfolding current_session_complete_through_latest
no_session timeframe h = ground arith

current_value :
    (b : CompletedBar) (bs : List CompletedBar) (timeframe : String)
    → current_session_complete_through_latest (b ∷ bs) timeframe ≡ (
        one_minute timeframe
        && (nat_eq (ist_time b.started_at) nse_open && each_minute b.started_at (b ∷ bs)))
unfolding current_session_complete_through_latest has_continuous_current_session_prefix
current_value b bs timeframe =
    subst
      (λ (t : List CompletedBar).
        (if not (one_minute timeframe) || false
          then false
          else if ltb (length (b ∷ bs)) (length (b ∷ bs))
              || not (nat_eq (ist_time b.started_at) nse_open)
          then false
          else each_minute b.started_at (b ∷ t))
        ≡ (one_minute timeframe
            && (nat_eq (ist_time b.started_at) nse_open && each_minute b.started_at (b ∷ bs))))
      (sym (take-all bs))
      (guards (one_minute timeframe) _ (nat_eq (ist_time b.started_at) nse_open) _ (ground arith))

both : (a b c : Bool) → ((a && (b && c)) ≡ true) ↔ ((a ≡ true) × (b ≡ true) × (c ≡ true))
both true true true = (λ h. (refl, refl, refl), λ p. refl)
both true true false = (λ h. cc, λ p. p.2)
both true false c = (λ h. cc, λ p. p.1)
both false b c = (λ h. cc, λ p. p.0)

-- The last minutes of a session are complete exactly where the timeframe is one minute and the
-- session is whole from 09:15 through its latest bar.
pub current_session_complete-IsWhole :
    (bars : List CompletedBar) (timeframe : String)
    → (current_session_complete_through_latest bars timeframe ≡ true)
      ↔ ((one_minute timeframe ≡ true) × IsWhole bars)
current_session_complete-IsWhole [] timeframe =
    (λ h. absurd (no_session timeframe h), λ p. absurd p.1)
current_session_complete-IsWhole (b ∷ bs) timeframe =
    let (unbroken, each) = each_minute-IsUnbroken b.started_at (b ∷ bs) in
    let start = nat_eq_iff (ist_time b.started_at) nse_open in
    let parts = both (one_minute timeframe) _ _ in
    let value = current_value b bs timeframe in
    (
      (λ h. let (m, s, e) = parts.0 (sym value ∙ h) in (m, (start.0 s, unbroken e))),
      (λ p. value ∙ parts.1 (p.0, start.1 p.1.0, each p.1.1)),
    )

next_minute : (b c : CompletedBar) → c.started_at ≡ b.started_at + minute_us → is_next b c ≡ true
next_minute b c h = ground arith

pairs-IsUnbroken :
    (expected : ℕ) (bars : List CompletedBar)
    → IsUnbroken expected bars
    → pairs_continue bars ≡ true
pairs-IsUnbroken expected [] u = refl
pairs-IsUnbroken expected (b ∷ []) u = refl
pairs-IsUnbroken expected (b ∷ c ∷ rest) u =
    rw (next_minute b c (u.1.0 ∙ ap (λ t. t + minute_us) (sym u.0)))
      (pairs-IsUnbroken (expected + minute_us) (c ∷ rest) u.1)

continuous :
    (bars : List CompletedBar) (timeframe : String)
    → pairs_continue bars ≡ true
    → candle_continuity_ok bars timeframe ≡ true
unfolding candle_continuity_ok
continuous bars timeframe h = ground arith

opened :
    (b : CompletedBar) (bs : List CompletedBar) (timeframe : String) (n : ℕ)
    → one_minute timeframe ≡ true
    → IsWhole (b ∷ bs)
    → 1 ≤ n
    → n ≤ length (b ∷ bs)
    → each_minute b.started_at (take n (b ∷ bs)) ≡ true
    → opening_range_complete (b ∷ bs) (pos n) timeframe ≡ true
unfolding opening_range_complete has_continuous_current_session_prefix
opened b bs timeframe n m w lo hi e = ground (arith, nat_eq_iff (ist_time b.started_at) nse_open)

-- A session that is complete through its latest bar has no gap for the continuity test, and its
-- opening range is complete for every range of minutes that the session is long enough for.
pub complete_session-covers :
    (bars : List CompletedBar) (timeframe : String) (range_minutes : ℕ)
    → current_session_complete_through_latest bars timeframe ≡ true
    → 1 ≤ range_minutes
    → range_minutes ≤ length bars
    → (candle_continuity_ok bars timeframe ≡ true)
      × (opening_range_complete bars (pos range_minutes) timeframe ≡ true)
complete_session-covers [] timeframe n h lo hi = absurd (no_session timeframe h)
complete_session-covers (b ∷ bs) timeframe n h lo hi =
    let (m, w) = (current_session_complete-IsWhole (b ∷ bs) timeframe).0 h in
    (
      continuous (b ∷ bs) timeframe (pairs-IsUnbroken b.started_at (b ∷ bs) w.1),
      opened b bs timeframe n m w lo hi (
          (each_minute-IsUnbroken b.started_at (take n (b ∷ bs))).1
            (IsUnbroken-take n b.started_at (b ∷ bs) w.1)),
    )
