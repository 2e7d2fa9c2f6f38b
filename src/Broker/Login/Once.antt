-- ===== src/Broker/Login/Once.antt =====
-- The states of backend/app/broker/kite_auth_service.py over the requests that follow a login.
use trader_ai.Common.{
  ℕ, String, ◌≡◌, refl, sym, ◌∙◌, subst, inl, inr, true, false, not, ◌&&◌, Option, none, some,
  arith, str_eq, Bool-cases, Option-cases, some_inj,
}
use trader_ai.Broker.Auth.{Result, KeyStore, Fernet, Settings, is_blank, config_failure, ok, failed}
use trader_ai.Broker.Login.{
  Auth, Callback, state_ttl_seconds, create_login_url, consume_state, handle_callback, get_status,
  invalidated, logout_row, logout, Machine, Step, creates, callbacks, statuses, logouts,
}
use trader_ai.Broker.Login.Callbacks.{is_ok, after_state-states, after_state-ok, callback-ok}
use trader_ai.Broker.Sessions.{
  is_active, SessionRecord, broker_zerodha, get_latest_session, is_expired,
}

module _ {S : Type 0} (redis : KeyStore S) (fernet : Fernet) (cfg : Settings) where
  -- No state that the step creates is `state`.
  abbrev pub NotCreated : String → {m n : Machine S} → Step redis fernet cfg m n → Type 0
  NotCreated state (creates now token login_url le) = str_eq token state ≡ false
  NotCreated state (callbacks req le) = Unit
  NotCreated state (statuses now le) = Unit
  NotCreated state (logouts now client le) = Unit

  -- The requests from `m` to `n` that do not create `state`.
  pub data Runs (state : String) (m : Machine S) : Machine S → Type 0 where
    here : Runs state m m
    after :
        {n o : Machine S}
        → Runs state m n
        → (step : Step redis fernet cfg n o) → NotCreated state step
        → Runs state m o

  get_status-states :
      (now : ℕ) (auth : Auth S) → (get_status redis fernet cfg now auth).1.states ≡ auth.states
  unfolding get_status
  get_status-states now auth = elim (Bool-cases cfg.auth_enabled) [
    | inr r ↦ rw r refl
    | inl r ↦ elim (Option-cases (get_latest_session broker_zerodha auth.table)) [
      | inl e ↦ rw (r, e) refl
      | inr (row, e) ↦ elim (Bool-cases (is_expired now row.expires_at && is_active row.status)) [
        | inl q ↦ rw (r, e, q) refl
        | inr q ↦ rw (r, e, q) refl
      ]
    ]
  ]

  invalidated-states :
      (r : Result (Unit {0})) (row : SessionRecord) (now : ℕ) (auth : Auth S)
      → (invalidated redis fernet cfg r row now auth).1.states ≡ auth.states
  invalidated-states (failed e) row now auth = refl
  invalidated-states (ok u) row now auth = refl

  logout_row-states :
      (client : String → Result (Unit {0})) (now : ℕ) (row : Option SessionRecord) (auth : Auth S)
      → (logout_row redis fernet cfg client now row auth).1.states ≡ auth.states
  logout_row-states client now none auth = refl
  logout_row-states client now (some row) auth = elim (Bool-cases cfg.cipher) [
    | inr r ↦ rw r refl
    | inl r ↦ elim (Bool-cases (is_active row.status && not (is_expired now row.expires_at))) [
      | inl q ↦ rw (r, q) (invalidated-states _ row now auth)
      | inr q ↦ rw (r, q) refl
    ]
  ]

  logout-states :
      (client : String → Result (Unit {0})) (now : ℕ) (auth : Auth S)
      → (logout redis fernet cfg client now auth).1.states ≡ auth.states
  unfolding logout
  logout-states client now auth = elim (Option-cases (config_failure cfg true)) [
    | inr (e, r) ↦ rw r refl
    | inl r ↦ rw r (logout_row-states client now _ auth)
  ]

  consume-Absent :
      (now : ℕ) (k j : String) (s : S)
      → redis.Absent k s
      → redis.Absent k (consume_state redis fernet cfg now j s).1
  consume-Absent now k j s h = elim (Bool-cases (is_blank j)) [
    | inl r ↦ rw r h
    | inr r ↦ rw r (redis.Absent-delete now k j s h)
  ]

  consume-none :
      (now : ℕ) (k : String) (s : S)
      → redis.Absent k s
      → (consume_state redis fernet cfg now k s).0 ≡ false
  consume-none now k s h = elim (Bool-cases (is_blank k)) [
    | inl r ↦ rw r refl
    | inr r ↦ rw r (redis.delete-none now k s h)
  ]

  consumed-Absent :
      (now : ℕ) (k : String) (s : S)
      → (consume_state redis fernet cfg now k s).0 ≡ true
      → redis.Absent k (consume_state redis fernet cfg now k s).1
  consumed-Absent now k s h = elim (Bool-cases (is_blank k)) [
    | inl r ↦ absurd (grind (arith, rw r at h))
    | inr r ↦ rw r (redis.delete-Absent now k s)
  ]

  callback-Absent :
      (req : Callback) (k : String) (auth : Auth S)
      → redis.Absent k auth.states
      → redis.Absent k (handle_callback redis fernet cfg req auth).1.states
  unfolding handle_callback
  callback-Absent req k auth h = elim (Option-cases (config_failure cfg true)) [
    | inr (e, c) ↦ rw c h
    | inl c ↦ elim (Option-cases req.request_token) [
      | inl t ↦ rw (c, t) h
      | inr (token, t) ↦ elim (Bool-cases (is_blank token)) [
        | inl b ↦ rw (c, t, b) h
        | inr b ↦ elim (Option-cases req.state) [
          | inl s ↦ rw (c, t, b, s) h
          | inr (state, s) ↦
              rw
                (
                  c,
                  t,
                  b,
                  s,
                  after_state-states redis fernet cfg req token
                      (consume_state redis fernet cfg req.now state auth.states) auth,
                )
                (consume-Absent req.now k state auth.states h)
        ]
      ]
    ]
  ]

  success-Absent :
      (req : Callback) (k : String) (auth : Auth S)
      → req.state ≡ some k
      → is_ok (handle_callback redis fernet cfg req auth).0 ≡ true
      → redis.Absent k (handle_callback redis fernet cfg req auth).1.states
  success-Absent req k auth e h =
      let (token, state, t, s, c, r) = callback-ok redis fernet cfg req auth h in
      let p = consume_state redis fernet cfg req.now state auth.states in
      let used = after_state-ok redis fernet cfg req token p auth (rw r at h) in
      rw (r, after_state-states redis fernet cfg req token p auth)
        (subst (λ j. redis.Absent j p.1) (some_inj (sym s ∙ e))
          (consumed-Absent req.now state auth.states used))

  absent-fails :
      (req : Callback) (k : String) (auth : Auth S)
      → req.state ≡ some k
      → redis.Absent k auth.states
      → is_ok (handle_callback redis fernet cfg req auth).0 ≡ false
  absent-fails req k auth e a =
      elim (Bool-cases (is_ok (handle_callback redis fernet cfg req auth).0)) [
        | inr h ↦ h
        | inl h ↦
            let (token, state, t, s, c, r) = callback-ok redis fernet cfg req auth h in
            let p = consume_state redis fernet cfg req.now state auth.states in
            let used = after_state-ok redis fernet cfg req token p auth (rw r at h) in
            let gone = subst (λ j. redis.Absent j auth.states) (some_inj (sym e ∙ s)) a in
            absurd (grind (arith, used, consume-none req.now state auth.states gone))
      ]

  step-Absent :
      (k : String) (m n : Machine S) (step : Step redis fernet cfg m n)
      → NotCreated k step
      → redis.Absent k m.auth.states
      → redis.Absent k n.auth.states
  unfolding create_login_url
  step-Absent k m n (creates now token login_url le) new a =
      elim (Option-cases (config_failure cfg false)) [
        | inr (e, r) ↦ rw r a
        | inl r ↦ rw r (redis.Absent-set now state_ttl_seconds k token m.auth.states new a)
      ]
  step-Absent k m n (callbacks req le) new a = callback-Absent req k m.auth a
  step-Absent k m n (statuses now le) new a = rw (get_status-states now m.auth) a
  step-Absent k m n (logouts now client le) new a = rw (logout-states client now m.auth) a

  runs-Absent :
      (k : String) (m n : Machine S)
      → Runs k m n
      → redis.Absent k m.auth.states
      → redis.Absent k n.auth.states
  runs-Absent k m n here a = a
  runs-Absent k m n (after {n = o} runs step new) a =
      step-Absent k o n step new (runs-Absent k m o runs a)

  -- Where a callback with the state `k` succeeds, no later callback with this state does, whatever
  -- requests lie between the two, unless one of them creates the same state again.
  pub callback-once :
      (req req' : Callback) (k : String) (t : ℕ) (auth : Auth S) (n : Machine S)
      → req.state ≡ some k
      → req'.state ≡ some k
      → is_ok (handle_callback redis fernet cfg req auth).0 ≡ true
      → Runs k (record { clock = t; auth = (handle_callback redis fernet cfg req auth).1 }) n
      → is_ok (handle_callback redis fernet cfg req' n.auth).0 ≡ false
  callback-once req req' k t auth n e e' h runs =
      absent-fails req' k n.auth e' (runs-Absent k _ n runs (success-Absent req k auth e h))
