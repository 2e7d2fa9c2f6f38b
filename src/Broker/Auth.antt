-- ===== src/Broker/Auth.antt =====
-- What the login service and the session provider share: backend/app/broker/exceptions.py,
-- token_cipher.py, the settings and the status of kite_auth_service.py, and session_provider.py. The
-- key store (Redis), Fernet and the broker's client are given.
use trader_ai.Common.{
  ℕ, String, ◌≡◌, Bool, true, false, not, ◌&&◌, ◌||◌, Option, none, some, str_eq, if◌then◌else◌,
  is_some, is_none,
}
use trader_ai.Broker.Sessions.{
  Status, is_active, SessionRecord, broker_zerodha, SessionTable, get_latest_session, is_expired,
}

pub data AuthError : Type 0 where
  auth_disabled config_error state_error session_error client_error : AuthError

pub data Result {ℓ} (A : Type ℓ) : Type ℓ where
  ok : A → Result A
  failed : AuthError → Result A

-- What a key store does: `set` with a time to live and `delete`, which tells whether it found the
-- key. `Absent k s` says that `s` holds no live key `k`.
pub record KeyStore (S : Type 0) : Type 1 where
  pub set : ℕ → String → ℕ → S → S
  pub delete : ℕ → String → S → Bool × S
  pub Absent : String → S → Type 0
  pub delete-Absent : (t : ℕ) (k : String) (s : S) → Absent k (delete t k s).1
  pub Absent-delete : (t : ℕ) (k j : String) (s : S) → Absent k s → Absent k (delete t j s).1
  pub Absent-set :
      (t ttl : ℕ) (k j : String) (s : S)
      → str_eq j k ≡ false
      → Absent k s
      → Absent k (set t j ttl s)
  pub delete-none : (t : ℕ) (k : String) (s : S) → Absent k s → (delete t k s).0 ≡ false

-- Fernet under one key; a number stands for the instant and the random bytes of a token.
pub record Fernet : Type 0 where
  pub encrypt : ℕ → String → String
  pub decrypt : String → Option String

-- The settings; `cipher` is false where the service has no token cipher.
pub record Settings : Type 0 where
  pub auth_enabled : Bool
  pub api_key : String
  pub api_secret : String
  pub redirect_url : String
  pub encryption_key : String
  pub cipher : Bool

abbrev pub is_blank : String → Bool
is_blank s = str_eq s ""

-- The truth value of a setting.
abbrev pub is_set : String → Bool
is_set s = not (is_blank s)

-- `_has_required_config`
abbrev pub has_required_config : Settings → Bool → Bool
has_required_config cfg require_cipher =
    is_set cfg.api_key
    && (is_set cfg.api_secret
        && (is_set cfg.redirect_url && (not require_cipher || is_set cfg.encryption_key)))

-- `_ensure_enabled_and_configured`: the error that it raises.
abbrev pub config_failure : Settings → Bool → Option AuthError
config_failure cfg require_cipher =
    if not cfg.auth_enabled
    then some auth_disabled
    else if has_required_config cfg require_cipher
    then none
    else some config_error

-- `TokenCipher.encrypt`
abbrev pub encrypt_token : Fernet → ℕ → String → Result String
encrypt_token fernet nonce token =
    if is_blank token then failed session_error else ok (fernet.encrypt nonce token)

abbrev pub decrypted : Option String → Result String
decrypted none = failed session_error
decrypted (some token) = ok token

-- `TokenCipher.decrypt`
abbrev pub decrypt_token : Fernet → String → Result String
decrypt_token fernet token =
    if is_blank token then failed session_error else decrypted (fernet.decrypt token)

pub record SessionStatus : Type 0 where
  pub configured : Bool
  pub enabled : Bool
  pub authenticated : Bool
  pub broker : String
  pub user_id : Option String
  pub login_at : Option ℕ
  pub expires_at : Option ℕ
  pub expired : Bool
  pub status : Option Status

-- `_status_from_record`
abbrev pub status_of : Settings → ℕ → SessionRecord → SessionStatus
status_of cfg now row = record {
  configured = has_required_config cfg true;
  enabled = cfg.auth_enabled;
  authenticated =
      is_active row.status && (not (is_expired now row.expires_at) && is_none row.invalidated_at);
  broker = row.broker;
  user_id = row.user_id;
  login_at = some row.login_at;
  expires_at = some row.expires_at;
  expired = is_expired now row.expires_at;
  status = some row.status;
}

abbrev pub no_session : Bool → Bool → SessionStatus
no_session configured enabled = record {
  configured = configured;
  enabled = enabled;
  authenticated = false;
  broker = broker_zerodha;
  user_id = none;
  login_at = none;
  expires_at = none;
  expired = false;
  status = none;
}

-- `KiteAccessSession`
pub record AccessSession : Type 0 where
  pub token : String
  pub user_id : Option String
  pub expires_at : ℕ

abbrev pub access_of : SessionRecord → Result String → Result AccessSession
access_of row (failed e) = failed e
access_of row (ok token) =
    ok (record { token = token; user_id = row.user_id; expires_at = row.expires_at })

abbrev pub access_row : Fernet → ℕ → Option SessionRecord → Result AccessSession
access_row fernet now none = failed session_error
access_row fernet now (some row) =
    if not (is_active row.status) || is_some row.invalidated_at
    then failed session_error
    else if is_expired now row.expires_at
    then failed session_error
    else access_of row (decrypt_token fernet row.encrypted_access_token)

-- `KiteAccessSessionProvider.get_active_session`
unfoldable pub get_active_session : Fernet → Settings → ℕ → SessionTable → Result AccessSession
get_active_session fernet cfg now table =
    if not cfg.auth_enabled
    then failed auth_disabled
    else if not (is_set cfg.api_key) || not cfg.cipher
    then failed config_error
    else access_row fernet now (get_latest_session broker_zerodha table)
