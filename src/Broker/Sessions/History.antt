-- ===== src/Broker/Sessions/History.antt =====
-- The order of the table of backend/app/broker/session_store.py, and the bounds of
-- `next_kite_expiry`.
use trader_ai.Common.{
  ℕ, ◌+◌, ◌≤◌, ◌<◌, String, ◌≡◌, refl, inl, inr, true, false, ◌&&◌, Option, List, [], ◌∷◌, map,
  arith, str_eq, str_eq_iff, nat_eq, Bool-cases, All,
}
use trader_ai.Broker.Sessions.{
  Status, is_active, SessionRecord, broker_zerodha, SessionTable, expire_row, new_session,
  save_session, invalidate_row, mark_invalidated,
}

-- `y` was inserted before `x`, and is no longer active.
abbrev pub IsBefore : SessionRecord → SessionRecord → Type 0
IsBefore x y = (y.created_at ≤ x.created_at) × (y.id < x.id) × (is_active y.status ≡ false)

abbrev pub IsHistory : List SessionRecord → Type 0
IsHistory [] = Unit
IsHistory (x ∷ xs) = All (IsBefore x) xs × IsHistory xs

abbrev pub IsKept : ℕ → ℕ → SessionRecord → Type 0
IsKept clock next_id row =
    (str_eq row.broker broker_zerodha ≡ true) × (row.created_at ≤ clock) × (row.id < next_id)

-- The rows are those of one broker, the newest first, and only the newest may be active.
unfoldable pub IsTable : ℕ → SessionTable → Type 0
IsTable clock table = IsHistory table.rows × All (IsKept clock table.next_id) table.rows

-- A change of a row that keeps its place and makes nothing active.
abbrev Keeps : (SessionRecord → SessionRecord) → Type 0
Keeps f =
    (row : SessionRecord)
    → ((f row).created_at ≡ row.created_at)
      × ((f row).id ≡ row.id)
      × ((f row).broker ≡ row.broker)
      × (is_active row.status ≡ false → is_active (f row).status ≡ false)

module _ (f : SessionRecord → SessionRecord) (keeps : Keeps f) where
  All-IsBefore-map :
      (x y : SessionRecord) (xs : List SessionRecord)
      → x.created_at ≤ y.created_at
      → x.id ≤ y.id
      → All (IsBefore x) xs
      → All (IsBefore y) (map f xs)
  All-IsBefore-map x y [] p q h = tt
  All-IsBefore-map x y (z ∷ zs) p q h =
      let k = keeps z in
      (
        (omega (arith, k.0, h.0.0), omega (arith, k.1, h.0.1), k.3 h.0.2),
        All-IsBefore-map x y zs p q h.1,
      )

  IsHistory-map : (xs : List SessionRecord) → IsHistory xs → IsHistory (map f xs)
  IsHistory-map [] h = tt
  IsHistory-map (x ∷ xs) h =
      let k = keeps x in
      (
        All-IsBefore-map x (f x) xs (omega (arith, k.0)) (omega (arith, k.1)) h.0,
        IsHistory-map xs h.1,
      )

  All-IsKept-map :
      (c d m n : ℕ)
      → c ≤ d
      → m ≤ n
      → (xs : List SessionRecord) → All (IsKept c m) xs
      → All (IsKept d n) (map f xs)
  All-IsKept-map c d m n p q [] h = tt
  All-IsKept-map c d m n p q (x ∷ xs) h =
      let k = keeps x in
      (
        (rw k.2 h.0.0, omega (arith, k.0, h.0.1), omega (arith, k.1, h.0.2)),
        All-IsKept-map c d m n p q xs h.1,
      )

expire_row-Keeps : (broker : String) (now : ℕ) → Keeps (expire_row broker now)
expire_row-Keeps broker now row =
    elim (Bool-cases (str_eq row.broker broker && is_active row.status)) [
      | inl r ↦ rw r (refl, refl, refl, λ _. refl)
      | inr r ↦ rw r (refl, refl, refl, λ h. h)
    ]

invalidate_row-Keeps :
    (id : ℕ) (status : Status) (now : ℕ)
    → is_active status ≡ false
    → Keeps (invalidate_row id status now)
invalidate_row-Keeps id status now e row = elim (Bool-cases (nat_eq row.id id)) [
  | inl r ↦ rw r (refl, refl, refl, λ _. e)
  | inr r ↦ rw r (refl, refl, refl, λ h. h)
]

expire_row-inactive :
    (now : ℕ) (row : SessionRecord)
    → str_eq row.broker broker_zerodha ≡ true
    → is_active (expire_row broker_zerodha now row).status ≡ false
expire_row-inactive now row e = elim (Bool-cases (is_active row.status)) [
  | inl r ↦ rw (e, r) refl
  | inr r ↦ rw (e, r) r
]

All-IsBefore-save :
    (c n now : ℕ) (row : SessionRecord)
    → c ≤ now
    → row.created_at ≡ now
    → row.id ≡ n
    → (xs : List SessionRecord) → All (IsKept c n) xs
    → All (IsBefore row) (map (expire_row broker_zerodha now) xs)
All-IsBefore-save c n now row le p q [] h = tt
All-IsBefore-save c n now row le p q (x ∷ xs) h =
    let k = expire_row-Keeps broker_zerodha now x in
    (
      (omega (arith, k.0, h.0.1), omega (arith, k.1, h.0.2), expire_row-inactive now x h.0.0),
      All-IsBefore-save c n now row le p q xs h.1,
    )

pub save_session-IsTable :
    (c now : ℕ) (user : Option String) (token : String) (login expires : ℕ) (table : SessionTable)
    → c ≤ now
    → IsTable c table
    → IsTable now (save_session broker_zerodha user token login expires now table).1
unfolding IsTable save_session
save_session-IsTable c now user token login expires table le h =
    let row = new_session table.next_id broker_zerodha user token login expires now in
    let keeps = expire_row-Keeps broker_zerodha now in
    (
      (
        All-IsBefore-save c table.next_id now row le refl refl table.rows h.1,
        IsHistory-map (expire_row broker_zerodha now) keeps table.rows h.0,
      ),
      (
        ((str_eq_iff broker_zerodha broker_zerodha).1 refl, omega arith, omega arith),
        All-IsKept-map (expire_row broker_zerodha now) keeps c now table.next_id (table.next_id + 1)
            le (omega arith) table.rows h.1,
      ),
    )

pub mark_invalidated-IsTable :
    (c now id : ℕ) (status : Status) (table : SessionTable)
    → c ≤ now
    → is_active status ≡ false
    → IsTable c table
    → IsTable now (mark_invalidated id status now table)
unfolding IsTable mark_invalidated
mark_invalidated-IsTable c now id status table le e h =
    let keeps = invalidate_row-Keeps id status now e in
    (
      IsHistory-map (invalidate_row id status now) keeps table.rows h.0,
      All-IsKept-map (invalidate_row id status now) keeps c now table.next_id table.next_id le
          (omega arith) table.rows h.1,
    )

All-IsKept-later :
    (c d n : ℕ) → c ≤ d → (xs : List SessionRecord) → All (IsKept c n) xs → All (IsKept d n) xs
All-IsKept-later c d n le [] h = tt
All-IsKept-later c d n le (x ∷ xs) h =
    ((h.0.0, omega (arith, h.0.1), h.0.2), All-IsKept-later c d n le xs h.1)

pub IsTable-later :
    (c now : ℕ) (table : SessionTable) → c ≤ now → IsTable c table → IsTable now table
unfolding IsTable
IsTable-later c now table le h = (h.0, All-IsKept-later c now table.next_id le table.rows h.1)
