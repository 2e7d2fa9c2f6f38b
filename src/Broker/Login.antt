-- ===== src/Broker/Login.antt =====
-- backend/app/broker/kite_auth_service.py: the states of RedisStateStore and KiteAuthService.
pub mod Callbacks
pub mod Once
pub mod Table
pub mod RoundTrip
mod Sample
mod Tests
use trader_ai.Common.{
  ℕ, ◌≤◌, String, Bool, true, false, not, ◌&&◌, Option, none, some, [], if◌then◌else◌,
}
use trader_ai.Broker.Sessions.{
  Status, is_active, SessionRecord, broker_zerodha, SessionTable, save_session, get_latest_session,
  mark_invalidated, next_kite_expiry, is_expired, status_logged_out, status_expired,
}
use trader_ai.Broker.Auth.{
  AuthError, Result, KeyStore, Fernet, Settings, is_blank, has_required_config, config_failure,
  encrypt_token, decrypt_token, SessionStatus, status_of, no_session, config_error, state_error,
  session_error, ok, failed,
}

-- What the services share: the key store and the table of sessions.
pub record Auth (S : Type 0) : Type 0 where
  pub states : S
  pub table : SessionTable

-- `KiteSessionData`, and what `exchange_request_token` does.
pub record SessionData : Type 0 where
  pub user : String
  pub access_token : String

-- The query of a callback, the answer of the broker to its request token, and the clock.
pub record Callback : Type 0 where
  pub request_token : Option String
  pub state : Option String
  pub exchange : String → Result SessionData
  pub nonce : ℕ
  pub now : ℕ

abbrev pub state_ttl_seconds : ℕ
state_ttl_seconds = 300

abbrev pub or_none : String → Option String
or_none s = if is_blank s then none else some s

module _ {S : Type 0} (redis : KeyStore S) (fernet : Fernet) (cfg : Settings) where
  -- `create_login_url`, with the random text of its state and what the client gives for it.
  abbrev pub create_state : ℕ → String → Auth S → Auth S
  create_state now token auth = record auth {
    states = redis.set now token state_ttl_seconds auth.states;
  }

  abbrev pub create_url :
      Option AuthError → ℕ → String → (String → String) → Auth S → Result String × Auth S
  create_url (some e) now token login_url auth = (failed e, auth)
  create_url none now token login_url auth = (ok (login_url token), create_state now token auth)

  unfoldable pub create_login_url : ℕ → String → (String → String) → Auth S → Result String × Auth S
  create_login_url now token login_url auth =
      create_url (config_failure cfg false) now token login_url auth

  -- `consume_state`
  abbrev pub consume_state : ℕ → String → S → Bool × S
  consume_state now state states =
      if is_blank state then (false, states) else redis.delete now state states

  abbrev pub save_login :
      Callback → SessionData → Result String → Auth S → Result SessionStatus × Auth S
  save_login req session (failed e) auth = (failed e, auth)
  save_login req session (ok token) auth =
      let saved =
        save_session broker_zerodha (or_none session.user) token req.now (next_kite_expiry req.now)
          req.now auth.table in
      (ok (status_of cfg req.now saved.0), record auth { table = saved.1 })

  -- `handle_callback` once the token is exchanged.
  abbrev pub finish_login : Callback → Result SessionData → Auth S → Result SessionStatus × Auth S
  finish_login req (failed e) auth = (failed e, auth)
  finish_login req (ok session) auth =
      if is_blank session.access_token
      then (failed session_error, auth)
      else if not cfg.cipher
      then (failed config_error, auth)
      else save_login req session (encrypt_token fernet req.nonce session.access_token) auth

  abbrev pub after_state : Callback → String → Bool × S → Auth S → Result SessionStatus × Auth S
  after_state req token (false, states) auth = (failed state_error, record auth { states = states })
  after_state req token (true, states) auth =
      finish_login req (req.exchange token) (record auth { states = states })

  abbrev pub check_state :
      Callback → String → Option String → Auth S → Result SessionStatus × Auth S
  check_state req token none auth = (failed state_error, auth)
  check_state req token (some state) auth =
      after_state req token (consume_state req.now state auth.states) auth

  abbrev pub check_token : Callback → Option String → Auth S → Result SessionStatus × Auth S
  check_token req none auth = (failed state_error, auth)
  check_token req (some token) auth =
      if is_blank token then (failed state_error, auth) else check_state req token req.state auth

  abbrev pub callback_from : Callback → Option AuthError → Auth S → Result SessionStatus × Auth S
  callback_from req (some e) auth = (failed e, auth)
  callback_from req none auth = check_token req req.request_token auth

  unfoldable pub handle_callback : Callback → Auth S → Result SessionStatus × Auth S
  handle_callback req auth = callback_from req (config_failure cfg true) auth

  abbrev pub mark : ℕ → Status → ℕ → Auth S → Auth S
  mark id status now auth = record auth { table = mark_invalidated id status now auth.table }

  abbrev pub status_from : ℕ → Option SessionRecord → Auth S → SessionStatus × Auth S
  status_from now none auth = (no_session (has_required_config cfg true) true, auth)
  status_from now (some row) auth = (
    status_of cfg now row,
    if is_expired now row.expires_at && is_active row.status
        then mark row.id status_expired now auth
        else auth,
  )

  unfoldable pub get_status : ℕ → Auth S → SessionStatus × Auth S
  get_status now auth =
      if not cfg.auth_enabled
      then (no_session (has_required_config cfg false) false, auth)
      else status_from now (get_latest_session broker_zerodha auth.table) auth

  abbrev pub invalidated : Result (Unit {0}) → SessionRecord → ℕ → Auth S → Result Bool × Auth S
  invalidated (failed e) row now auth = (failed e, auth)
  invalidated (ok _) row now auth = (ok true, mark row.id status_logged_out now auth)

  -- The call of the client on the decrypted token.
  abbrev pub revoke : (String → Result (Unit {0})) → Result String → Result (Unit {0})
  revoke client (failed e) = failed e
  revoke client (ok token) = client token

  abbrev pub logout_row :
      (String → Result (Unit {0})) → ℕ → Option SessionRecord → Auth S → Result Bool × Auth S
  logout_row client now none auth = (ok false, auth)
  logout_row client now (some row) auth =
      if not cfg.cipher
      then (failed config_error, auth)
      else if is_active row.status && not (is_expired now row.expires_at)
      then invalidated (revoke client (decrypt_token fernet row.encrypted_access_token)) row now
          auth
      else (ok true, mark row.id status_logged_out now auth)

  abbrev pub logout_from :
      (String → Result (Unit {0})) → ℕ → Option AuthError → Auth S → Result Bool × Auth S
  logout_from client now (some e) auth = (failed e, auth)
  logout_from client now none auth =
      logout_row client now (get_latest_session broker_zerodha auth.table) auth

  unfoldable pub logout : (String → Result (Unit {0})) → ℕ → Auth S → Result Bool × Auth S
  logout client now auth = logout_from client now (config_failure cfg true) auth

pub record Machine (S : Type 0) : Type 0 where
  pub clock : ℕ
  pub auth : Auth S

-- One request to the service, not before the last one.
pub data Step {S : Type 0} (redis : KeyStore S) (fernet : Fernet) (cfg : Settings) (m : Machine S)
    : Machine S → Type 0 where
  creates :
      (now : ℕ) (token : String) (login_url : String → String)
      → m.clock ≤ now
      → Step redis fernet cfg m (record {
        clock = now;
        auth = (create_login_url redis fernet cfg now token login_url m.auth).1;
      })
  callbacks :
      (req : Callback)
      → m.clock ≤ req.now
      → Step redis fernet cfg m
          (record { clock = req.now; auth = (handle_callback redis fernet cfg req m.auth).1 })
  statuses :
      (now : ℕ)
      → m.clock ≤ now
      → Step redis fernet cfg m
          (record { clock = now; auth = (get_status redis fernet cfg now m.auth).1 })
  logouts :
      (now : ℕ) (client : String → Result (Unit {0}))
      → m.clock ≤ now
      → Step redis fernet cfg m
          (record { clock = now; auth = (logout redis fernet cfg client now m.auth).1 })

abbrev pub no_sessions : SessionTable
no_sessions = record { rows = []; next_id = 1 }

pub data Reach {S : Type 0} (redis : KeyStore S) (fernet : Fernet) (cfg : Settings) (states : S)
    : Machine S → Type 0 where
  fresh :
      (t : ℕ)
      → Reach redis fernet cfg states
          (record { clock = t; auth = record { states = states; table = no_sessions } })
  later :
      {m n : Machine S}
      → Reach redis fernet cfg states m
      → Step redis fernet cfg m n
      → Reach redis fernet cfg states n
