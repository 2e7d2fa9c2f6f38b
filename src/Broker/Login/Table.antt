-- ===== src/Broker/Login/Table.antt =====
-- The table of sessions over the requests to backend/app/broker/kite_auth_service.py.
use trader_ai.Common.{
  ℕ, ◌≤◌, String, ◌≡◌, refl, inl, inr, Bool, true, false, not, ◌&&◌, Option, none, some, Bool-cases,
  Option-cases, count_if, All,
}
use trader_ai.Broker.Sessions.{
  is_active, SessionRecord, broker_zerodha, get_latest_session, next_kite_expiry, is_expired,
  status_logged_out, status_expired,
}
use trader_ai.Broker.Sessions.History.{
  IsTable, save_session-IsTable, mark_invalidated-IsTable, IsTable-later,
}
use trader_ai.Broker.Sessions.Latest.{active-latest, count-active}
use trader_ai.Broker.Auth.{Result, KeyStore, Fernet, Settings, is_blank, config_failure, ok, failed}
use trader_ai.Broker.Login.{
  Auth, SessionData, Callback, or_none, create_login_url, consume_state, save_login, finish_login,
  after_state, handle_callback, get_status, invalidated, logout_row, logout, Machine, Step, Reach,
  creates, callbacks, statuses, logouts, fresh, later,
}

module _ {S : Type 0} (redis : KeyStore S) (fernet : Fernet) (cfg : Settings) where
  save_login-IsTable :
      (c : ℕ) (req : Callback) (session : SessionData) (token : Result String) (auth : Auth S)
      → c ≤ req.now
      → IsTable c auth.table
      → IsTable req.now (save_login redis fernet cfg req session token auth).1.table
  save_login-IsTable c req session (failed e) auth le h = IsTable-later c req.now auth.table le h
  save_login-IsTable c req session (ok token) auth le h =
      save_session-IsTable c req.now (or_none session.user) token req.now (next_kite_expiry req.now)
        auth.table le h

  finish_login-IsTable :
      (c : ℕ) (req : Callback) (session : Result SessionData) (auth : Auth S)
      → c ≤ req.now
      → IsTable c auth.table
      → IsTable req.now (finish_login redis fernet cfg req session auth).1.table
  finish_login-IsTable c req (failed e) auth le h = IsTable-later c req.now auth.table le h
  finish_login-IsTable c req (ok session) auth le h =
      let kept = IsTable-later c req.now auth.table le h in
      elim (Bool-cases (is_blank session.access_token)) [
        | inl r ↦ rw r kept
        | inr r ↦ elim (Bool-cases cfg.cipher) [
          | inr q ↦ rw (r, q) kept
          | inl q ↦
              rw (r, q)
                (save_login-IsTable c req session
                  (ok (fernet.encrypt req.nonce session.access_token)) auth le h)
        ]
      ]

  after_state-IsTable :
      (c : ℕ) (req : Callback) (token : String) (p : Bool × S) (auth : Auth S)
      → c ≤ req.now
      → IsTable c auth.table
      → IsTable req.now (after_state redis fernet cfg req token p auth).1.table
  after_state-IsTable c req token (false, s) auth le h = IsTable-later c req.now auth.table le h
  after_state-IsTable c req token (true, s) auth le h =
      finish_login-IsTable c req (req.exchange token) (record auth { states = s }) le h

  handle_callback-IsTable :
      (c : ℕ) (req : Callback) (auth : Auth S)
      → c ≤ req.now
      → IsTable c auth.table
      → IsTable req.now (handle_callback redis fernet cfg req auth).1.table
  unfolding handle_callback
  handle_callback-IsTable c req auth le h =
      let kept = IsTable-later c req.now auth.table le h in
      elim (Option-cases (config_failure cfg true)) [
        | inr (e, r) ↦ rw r kept
        | inl r ↦ elim (Option-cases req.request_token) [
          | inl t ↦ rw (r, t) kept
          | inr (token, t) ↦ elim (Bool-cases (is_blank token)) [
            | inl b ↦ rw (r, t, b) kept
            | inr b ↦ elim (Option-cases req.state) [
              | inl s ↦ rw (r, t, b, s) kept
              | inr (state, s) ↦
                  rw (r, t, b, s)
                    (after_state-IsTable c req token
                      (consume_state redis fernet cfg req.now state auth.states) auth le h)
            ]
          ]
        ]
      ]

  get_status-IsTable :
      (c now : ℕ) (auth : Auth S)
      → c ≤ now
      → IsTable c auth.table
      → IsTable now (get_status redis fernet cfg now auth).1.table
  unfolding get_status
  get_status-IsTable c now auth le h =
      let kept = IsTable-later c now auth.table le h in
      elim (Bool-cases cfg.auth_enabled) [
        | inr r ↦ rw r kept
        | inl r ↦ elim (Option-cases (get_latest_session broker_zerodha auth.table)) [
          | inl e ↦ rw (r, e) kept
          | inr (row, e) ↦
              elim (Bool-cases (is_expired now row.expires_at && is_active row.status)) [
                | inr q ↦ rw (r, e, q) kept
                | inl q ↦
                    rw (r, e, q)
                      (mark_invalidated-IsTable c now row.id status_expired auth.table le refl h)
              ]
        ]
      ]

  invalidated-IsTable :
      (c now : ℕ) (r : Result (Unit {0})) (row : SessionRecord) (auth : Auth S)
      → c ≤ now
      → IsTable c auth.table
      → IsTable now (invalidated redis fernet cfg r row now auth).1.table
  invalidated-IsTable c now (failed e) row auth le h = IsTable-later c now auth.table le h
  invalidated-IsTable c now (ok u) row auth le h =
      mark_invalidated-IsTable c now row.id status_logged_out auth.table le refl h

  logout_row-IsTable :
      (c now : ℕ) (client : String → Result (Unit {0})) (row : Option SessionRecord) (auth : Auth S)
      → c ≤ now
      → IsTable c auth.table
      → IsTable now (logout_row redis fernet cfg client now row auth).1.table
  logout_row-IsTable c now client none auth le h = IsTable-later c now auth.table le h
  logout_row-IsTable c now client (some row) auth le h = elim (Bool-cases cfg.cipher) [
    | inr r ↦ rw r (IsTable-later c now auth.table le h)
    | inl r ↦ elim (Bool-cases (is_active row.status && not (is_expired now row.expires_at))) [
      | inl q ↦ rw (r, q) (invalidated-IsTable c now _ row auth le h)
      | inr q ↦
          rw (r, q) (mark_invalidated-IsTable c now row.id status_logged_out auth.table le refl h)
    ]
  ]

  logout-IsTable :
      (c now : ℕ) (client : String → Result (Unit {0})) (auth : Auth S)
      → c ≤ now
      → IsTable c auth.table
      → IsTable now (logout redis fernet cfg client now auth).1.table
  unfolding logout
  logout-IsTable c now client auth le h = elim (Option-cases (config_failure cfg true)) [
    | inr (e, r) ↦ rw r (IsTable-later c now auth.table le h)
    | inl r ↦
        rw r
          (logout_row-IsTable c now client (get_latest_session broker_zerodha auth.table) auth le h)
  ]

  create-table :
      (now : ℕ) (token : String) (login_url : String → String) (auth : Auth S)
      → (create_login_url redis fernet cfg now token login_url auth).1.table ≡ auth.table
  unfolding create_login_url
  create-table now token login_url auth = elim (Option-cases (config_failure cfg false)) [
    | inr (e, r) ↦ rw r refl
    | inl r ↦ rw r refl
  ]

  Step-IsTable :
      (m n : Machine S)
      → Step redis fernet cfg m n
      → IsTable m.clock m.auth.table
      → IsTable n.clock n.auth.table
  Step-IsTable m n (creates now token login_url le) h =
      rw (create-table now token login_url m.auth) (IsTable-later m.clock now m.auth.table le h)
  Step-IsTable m n (callbacks req le) h = handle_callback-IsTable m.clock req m.auth le h
  Step-IsTable m n (statuses now le) h = get_status-IsTable m.clock now m.auth le h
  Step-IsTable m n (logouts now client le) h = logout-IsTable m.clock now client m.auth le h

  pub reach-IsTable :
      (states : S) (m : Machine S) → Reach redis fernet cfg states m → IsTable m.clock m.auth.table
  unfolding IsTable
  reach-IsTable states m (fresh t) = (tt, tt)
  reach-IsTable states m (later {m = k} r step) = Step-IsTable k m step (reach-IsTable states k r)

  -- In every reachable state at most one session is active, and it is the latest session.
  pub reach-active :
      (states : S) (m : Machine S)
      → Reach redis fernet cfg states m
      → (count_if (λ row. is_active row.status) m.auth.table.rows ≤ 1)
        × All
            (λ row.
              is_active row.status ≡ true
              → get_latest_session broker_zerodha m.auth.table ≡ some row)
            m.auth.table.rows
  reach-active states m r =
      let h = reach-IsTable states m r in
      (
        count-active m.clock m.auth.table.next_id m.auth.table.rows h,
        active-latest m.clock m.auth.table.next_id m.auth.table.rows h,
      )
