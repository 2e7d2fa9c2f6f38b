-- ===== src/Broker/Login/RoundTrip.antt =====
-- A login by backend/app/broker/kite_auth_service.py, read back by session_provider.py.
use trader_ai.Common.{
  ℕ, ◌+◌, ◌≤◌, String, ◌≡◌, refl, sym, ◌∙◌, subst, inl, inr, Bool, true, false, none, some, arith,
  if◌then◌else◌, Bool-cases, some_inj,
}
use trader_ai.Broker.Sessions.{
  broker_zerodha, SessionTable, new_session, save_session, get_latest_session, next_kite_expiry,
  is_expired,
}
use trader_ai.Broker.Sessions.History.{IsTable, save_session-IsTable}
use trader_ai.Broker.Sessions.Latest.{latest-head}
use trader_ai.Broker.Auth.{
  Result, KeyStore, Fernet, Settings, is_blank, is_set, config_failure, AccessSession,
  get_active_session, session_error, ok, failed,
}
use trader_ai.Broker.Login.{
  Auth, SessionData, Callback, or_none, consume_state, after_state, handle_callback, Machine, Reach,
}
use trader_ai.Broker.Login.Callbacks.{is_ok, callback-ok}
use trader_ai.Broker.Login.Table.{reach-IsTable}

-- The table with the session that a callback stores.
abbrev pub stored : Fernet → Callback → SessionData → SessionTable → SessionTable
stored fernet req session table =
    (save_session broker_zerodha (or_none session.user)
      (fernet.encrypt req.nonce session.access_token) req.now (next_kite_expiry req.now) req.now
      table).1

-- What the provider gives for it at `t`.
abbrev pub access_at : Callback → SessionData → ℕ → Result AccessSession
access_at req session t =
    if is_expired t (next_kite_expiry req.now)
    then failed session_error
    else ok (record {
      token = session.access_token;
      user_id = or_none session.user;
      expires_at = next_kite_expiry req.now;
    })

module _ {S : Type 0} (redis : KeyStore S) (fernet : Fernet) (cfg : Settings) where
  after_state-stored :
      (req : Callback) (token : String) (session : SessionData) (p : Bool × S) (auth : Auth S)
      → req.exchange token ≡ ok session
      → is_ok (after_state redis fernet cfg req token p auth).0 ≡ true
      → (cfg.cipher ≡ true)
        × ((after_state redis fernet cfg req token p auth).1.table
            ≡ stored fernet req session auth.table)
  after_state-stored req token session (false, s) auth e h = absurd (grind (arith, h))
  after_state-stored req token session (true, s) auth e h =
      elim (Bool-cases (is_blank session.access_token)) [
        | inl r ↦ absurd (grind (arith, rw (e, r) at h))
        | inr r ↦ elim (Bool-cases cfg.cipher) [
          | inr q ↦ absurd (grind (arith, rw (e, r, q) at h))
          | inl q ↦ (q, rw (e, r, q) refl)
        ]
      ]

  config-parts :
      config_failure cfg true ≡ none → (cfg.auth_enabled ≡ true) × (is_set cfg.api_key ≡ true)
  config-parts h = ground arith

  latest-stored :
      (c : ℕ) (req : Callback) (session : SessionData) (table : SessionTable)
      → c ≤ req.now
      → IsTable c table
      → get_latest_session broker_zerodha (stored fernet req session table)
        ≡ some (
            new_session table.next_id broker_zerodha
              (or_none session.user)
              (fernet.encrypt req.nonce session.access_token)
              req.now
              (next_kite_expiry req.now)
              req.now)
  unfolding save_session
  latest-stored c req session table le h = latest-head req.now (table.next_id + 1) _ _ (
      save_session-IsTable c req.now (or_none session.user)
        (fernet.encrypt req.nonce session.access_token) req.now (next_kite_expiry req.now) table le
        h)

  -- In a reachable state, where Fernet decrypts what it encrypts to a text that is not empty, a
  -- callback that succeeds leaves a session whose exchanged token and user the provider gives back
  -- at any time before the next expiry, and refuses from then on.
  pub login-access :
      (states : S) (m : Machine S) (req : Callback) (token : String) (session : SessionData) (t : ℕ)
      → ((n : ℕ) (s : String) → fernet.decrypt (fernet.encrypt n s) ≡ some s)
      → ((n : ℕ) (s : String) → is_blank (fernet.encrypt n s) ≡ false)
      → Reach redis fernet cfg states m
      → m.clock ≤ req.now
      → req.request_token ≡ some token
      → req.exchange token ≡ ok session
      → is_ok (handle_callback redis fernet cfg req m.auth).0 ≡ true
      → get_active_session fernet cfg t (handle_callback redis fernet cfg req m.auth).1.table
        ≡ access_at req session t
  unfolding get_active_session
  login-access states m req token session t law full reach le et ex h =
      let (token', state, t', s, c, r) = callback-ok redis fernet cfg req m.auth h in
      let p = consume_state redis fernet cfg req.now state m.auth.states in
      let same = subst (λ k. req.exchange k ≡ ok session) (some_inj (sym et ∙ t')) ex in
      let (cipher, table) = after_state-stored req token' session p m.auth same (rw r at h) in
      let (enabled, key) = config-parts c in
      let latest =
        latest-stored m.clock req session m.auth.table le
          (reach-IsTable redis fernet cfg states m reach) in
      rw (r, table, enabled, key, cipher, latest)
        (elim (Bool-cases (is_expired t (next_kite_expiry req.now))) [
          | inl q ↦ rw q refl
          | inr q ↦
              rw (q, full req.nonce session.access_token, law req.nonce session.access_token) refl
        ])
