-- ===== src/Broker/Login/Callbacks.antt =====
-- `handle_callback` of backend/app/broker/kite_auth_service.py where it succeeds.
use trader_ai.Common.{
  String, ◌≡◌, refl, inl, inr, Bool, true, false, none, some, arith, Bool-cases, Option-cases,
}
use trader_ai.Broker.Auth.{Result, KeyStore, Fernet, Settings, is_blank, config_failure, ok, failed}
use trader_ai.Broker.Login.{
  Auth, SessionData, Callback, consume_state, finish_login, after_state, handle_callback,
}

abbrev pub is_ok {ℓ} : {A : Type ℓ} → Result A → Bool
is_ok (ok _) = true
is_ok (failed _) = false

module _ {S : Type 0} (redis : KeyStore S) (fernet : Fernet) (cfg : Settings) where
  finish_login-states :
      (req : Callback) (session : Result SessionData) (auth : Auth S)
      → (finish_login redis fernet cfg req session auth).1.states ≡ auth.states
  finish_login-states req (failed e) auth = refl
  finish_login-states req (ok session) auth = elim (Bool-cases (is_blank session.access_token)) [
    | inl r ↦ rw r refl
    | inr r ↦ elim (Bool-cases cfg.cipher) [ inl q ↦ rw (r, q) refl | inr q ↦ rw (r, q) refl ]
  ]

  pub after_state-states :
      (req : Callback) (token : String) (p : Bool × S) (auth : Auth S)
      → (after_state redis fernet cfg req token p auth).1.states ≡ p.1
  after_state-states req token (false, s) auth = refl
  after_state-states req token (true, s) auth =
      finish_login-states req (req.exchange token) (record auth { states = s })

  pub after_state-ok :
      (req : Callback) (token : String) (p : Bool × S) (auth : Auth S)
      → is_ok (after_state redis fernet cfg req token p auth).0 ≡ true
      → p.0 ≡ true
  after_state-ok req token (false, s) auth h = absurd (grind (arith, h))
  after_state-ok req token (true, s) auth h = refl

  -- What a successful callback did.
  pub callback-ok :
      (req : Callback) (auth : Auth S)
      → is_ok (handle_callback redis fernet cfg req auth).0 ≡ true
      → (token : String) × (state : String) × (req.request_token ≡ some token)
        × (req.state ≡ some state)
        × (config_failure cfg true ≡ none)
        × (handle_callback redis fernet cfg req auth
            ≡ after_state redis fernet cfg req token
                (consume_state redis fernet cfg req.now state auth.states)
                auth)
  unfolding handle_callback
  callback-ok req auth h = elim (Option-cases (config_failure cfg true)) [
    | inr (e, c) ↦ absurd (grind (arith, rw c at h))
    | inl c ↦ elim (Option-cases req.request_token) [
      | inl t ↦ absurd (grind (arith, rw (c, t) at h))
      | inr (token, t) ↦ elim (Bool-cases (is_blank token)) [
        | inl b ↦ absurd (grind (arith, rw (c, t, b) at h))
        | inr b ↦ elim (Option-cases req.state) [
          | inl s ↦ absurd (grind (arith, rw (c, t, b, s) at h))
          | inr (state, s) ↦ (token, state, t, s, c, rw (c, t, b, s) refl)
        ]
      ]
    ]
  ]
