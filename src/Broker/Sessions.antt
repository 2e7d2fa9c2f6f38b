-- ===== src/Broker/Sessions.antt =====
-- backend/app/broker/session_store.py, the table `broker_sessions` as a list of rows in the order of
-- their insertion, the last one first, and `next_kite_expiry` of kite_auth_service.py. Instants are
-- microseconds since 1970-01-01T00:00Z.
pub mod History
pub mod Latest
use trader_ai.Common.{
  ℕ, ◌+◌, ◌-◌, ◌*◌, String, Bool, true, false, ◌&&◌, ◌||◌, Option, none, some, List, [], ◌∷◌, map,
  str_eq, ltb, leb, nat_eq, if◌then◌else◌, day_us, ist_offset_us, ist_date,
}

pub data Status : Type 0 where
  status_active status_logged_out status_expired : Status

abbrev pub is_active : Status → Bool
is_active status_active = true
is_active status_logged_out = false
is_active status_expired = false

pub record SessionRecord : Type 0 where
  pub id : ℕ
  pub broker : String
  pub user_id : Option String
  pub status : Status
  pub login_at : ℕ
  pub expires_at : ℕ
  pub encrypted_access_token : String
  pub invalidated_at : Option ℕ
  pub created_at : ℕ
  pub updated_at : ℕ

abbrev pub broker_zerodha : String
broker_zerodha = "ZERODHA"

-- The rows, and the id that the database gives to the next one.
pub record SessionTable : Type 0 where
  pub rows : List SessionRecord
  pub next_id : ℕ

-- The `update` of `save_authenticated_session` on one row.
abbrev pub expire_row : String → ℕ → SessionRecord → SessionRecord
expire_row broker now row =
    if str_eq row.broker broker && is_active row.status
    then record row { status = status_expired; updated_at = now }
    else row

abbrev pub new_session : ℕ → String → Option String → String → ℕ → ℕ → ℕ → SessionRecord
new_session id broker user_id token login_at expires_at now = record {
  id = id;
  broker = broker;
  user_id = user_id;
  status = status_active;
  login_at = login_at;
  expires_at = expires_at;
  encrypted_access_token = token;
  invalidated_at = none;
  created_at = now;
  updated_at = now;
}

-- `save_authenticated_session`, with the row that it returns.
unfoldable pub save_session :
    String → Option String → String → ℕ → ℕ → ℕ → SessionTable → SessionRecord × SessionTable
save_session broker user_id token login_at expires_at now table =
    let row = new_session table.next_id broker user_id token login_at expires_at now in
    (
      row,
      record { rows = row ∷ map (expire_row broker now) table.rows; next_id = table.next_id + 1 },
    )

-- `order_by(desc(created_at), desc(id))`: whether `a` comes before `b`.
abbrev pub is_newer : SessionRecord → SessionRecord → Bool
is_newer a b = ltb b.created_at a.created_at || (nat_eq b.created_at a.created_at && ltb b.id a.id)

abbrev pub newest : SessionRecord → Option SessionRecord → SessionRecord
newest row none = row
newest row (some next) = if is_newer next row then next else row

abbrev pub latest_of : String → List SessionRecord → Option SessionRecord
latest_of broker [] = none
latest_of broker (row ∷ rows) =
    let rest = latest_of broker rows in
    if str_eq row.broker broker then some (newest row rest) else rest

-- `get_latest_session`
unfoldable pub get_latest_session : String → SessionTable → Option SessionRecord
get_latest_session broker table = latest_of broker table.rows

abbrev pub invalidate_row : ℕ → Status → ℕ → SessionRecord → SessionRecord
invalidate_row id status now row =
    if nat_eq row.id id
    then record row { status = status; invalidated_at = some now; updated_at = now }
    else row

-- `mark_invalidated`
unfoldable pub mark_invalidated : ℕ → Status → ℕ → SessionTable → SessionTable
mark_invalidated id status now table = record table {
  rows = map (invalidate_row id status now) table.rows;
}

abbrev pub six_hours_us : ℕ
six_hours_us = 21_600_000_000

-- `next_kite_expiry`
unfoldable pub next_kite_expiry : ℕ → ℕ
next_kite_expiry now =
    let expiry = ist_date now * day_us + six_hours_us - ist_offset_us in
    if leb expiry now then expiry + day_us else expiry

-- `_is_expired`
abbrev pub is_expired : ℕ → ℕ → Bool
is_expired now expires_at = leb expires_at now
