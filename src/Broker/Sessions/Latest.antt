-- ===== src/Broker/Sessions/Latest.antt =====
-- `get_latest_session` of backend/app/broker/session_store.py against the order of the table, and
-- `next_kite_expiry` of kite_auth_service.py.
use trader_ai.Common.{
  ℕ, ◌≤◌, ◌<◌, ◌≡◌, refl, subst, inl, inr, true, false, some, List, [], ◌∷◌, arith, str_eq,
  Bool-cases, Option-cases, some_inj, count_if, All, ist_date, ist_time,
}
use trader_ai.Broker.Sessions.{
  is_active, SessionRecord, broker_zerodha, is_newer, newest, latest_of, get_latest_session,
  six_hours_us, next_kite_expiry,
}
use trader_ai.Broker.Sessions.History.{IsBefore, IsTable}

is_newer-IsBefore : (x y : SessionRecord) → IsBefore x y → is_newer y x ≡ false
is_newer-IsBefore x y h = ground (arith, h.0, h.1)

latest_of-All :
    (P : SessionRecord → Type 0) (xs : List SessionRecord) (y : SessionRecord)
    → latest_of broker_zerodha xs ≡ some y
    → All P xs
    → P y
latest_of-All P [] y e h = absurd (grind arith)
latest_of-All P (x ∷ xs) y e h = elim (Bool-cases (str_eq x.broker broker_zerodha)) [
  | inr r ↦ latest_of-All P xs y (rw r at e) h.1
  | inl r ↦ elim (Option-cases (latest_of broker_zerodha xs)) [
    | inl q ↦ subst P (some_inj (rw (r, q) at e)) h.0
    | inr (z, q) ↦ elim (Bool-cases (is_newer z x)) [
      | inl w ↦ subst P (some_inj (rw (r, q, w) at e)) (latest_of-All P xs z q h.1)
      | inr w ↦ subst P (some_inj (rw (r, q, w) at e)) h.0
    ]
  ]
]

newest-IsBefore :
    (x : SessionRecord) (xs : List SessionRecord)
    → All (IsBefore x) xs
    → newest x (latest_of broker_zerodha xs) ≡ x
newest-IsBefore x xs h = elim (Option-cases (latest_of broker_zerodha xs)) [
  | inl e ↦ rw e refl
  | inr (y, e) ↦ rw (e, is_newer-IsBefore x y (latest_of-All (IsBefore x) xs y e h)) refl
]

pub latest-head :
    (c n : ℕ) (x : SessionRecord) (xs : List SessionRecord)
    → IsTable c (record { rows = x ∷ xs; next_id = n })
    → get_latest_session broker_zerodha (record { rows = x ∷ xs; next_id = n }) ≡ some x
unfolding IsTable get_latest_session
latest-head c n x xs h = rw (h.1.0.0, newest-IsBefore x xs h.0.0) refl

All-inactive :
    (P : SessionRecord → Type 0) (x : SessionRecord) (xs : List SessionRecord)
    → All (IsBefore x) xs
    → All (λ row. is_active row.status ≡ true → P row) xs
All-inactive P x [] h = tt
All-inactive P x (y ∷ ys) h = (λ a. absurd (grind (arith, a, h.0.2)), All-inactive P x ys h.1)

-- The rows that are active are the latest session.
pub active-latest :
    (c n : ℕ) (rows : List SessionRecord)
    → IsTable c (record { rows = rows; next_id = n })
    → All
        (λ row.
          is_active row.status ≡ true
          → get_latest_session broker_zerodha (record { rows = rows; next_id = n }) ≡ some row)
        rows
unfolding IsTable
active-latest c n [] h = tt
active-latest c n (x ∷ xs) h = (λ _. latest-head c n x xs h, All-inactive _ x xs h.0.0)

count-inactive :
    (x : SessionRecord) (xs : List SessionRecord)
    → All (IsBefore x) xs
    → count_if (λ row. is_active row.status) xs ≡ 0
count-inactive x [] h = refl
count-inactive x (y ∷ ys) h = rw h.0.2 (omega (arith, count-inactive x ys h.1))

pub count-active :
    (c n : ℕ) (rows : List SessionRecord)
    → IsTable c (record { rows = rows; next_id = n })
    → count_if (λ row. is_active row.status) rows ≤ 1
unfolding IsTable
count-active c n [] h = omega arith
count-active c n (x ∷ xs) h = ground (arith, count-inactive x xs h.0.0)

-- The first 06:00 in India after `now`: it is after `now`, at that time of day, and not after any
-- other such instant.
pub next_kite_expiry_lem :
    (now t : ℕ)
    → now < t
    → ist_time t ≡ six_hours_us
    → (now < next_kite_expiry now)
      × (ist_time (next_kite_expiry now) ≡ six_hours_us)
      × (next_kite_expiry now ≤ t)
unfolding next_kite_expiry ist_time ist_date
next_kite_expiry_lem now t lt e = ground arith
