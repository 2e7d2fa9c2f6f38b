-- ===== src/Broker/Login/Tests.antt =====
-- A login with a key store that is a list, with the second request that carries its state.
use trader_ai.Common.{
  ◌+◌, ◌≤◌, ◌<◌, String, ◌≡◌, refl, true, false, not, some, List, [], ◌∷◌, arith, str_eq, keep_if,
  count_if, All, text_comparable, number_comparable, contains, day_us, ist_time,
}
use trader_ai.Broker.Sessions.{
  is_active, broker_zerodha, get_latest_session, six_hours_us, next_kite_expiry,
}
use trader_ai.Broker.Sessions.Latest.{next_kite_expiry_lem}
use trader_ai.Broker.Auth.{KeyStore, Settings, get_active_session, ok}
use trader_ai.Broker.Login.{
  SessionData, Callback, create_login_url, handle_callback, Machine, no_sessions, Reach, creates,
  callbacks, fresh, later,
}
use trader_ai.Broker.Login.Callbacks.{is_ok}
use trader_ai.Broker.Login.Once.{callback-once, here}
use trader_ai.Broker.Login.Table.{reach-active}
use trader_ai.Broker.Login.RoundTrip.{access_at, login-access}
use trader_ai.Broker.Login.Sample.{sample, tail-front, front-blank}

abbrev others : String → List String → List String
others k = keep_if (λ j. not (str_eq j k))

others-none : (k : String) (s : List String) → contains k (others k s) ≡ false
others-none k [] = refl
others-none k (j ∷ s) = ground (arith, others-none k s)

others-less :
    (k j : String) (s : List String) → contains k s ≡ false → contains k (others j s) ≡ false
others-less k j [] h = refl
others-less k j (i ∷ s) h = ground (arith, others-less k j s)

-- Keys never run out here.
abbrev listed : KeyStore (List String)
listed = record {
  set = λ t k ttl s. k ∷ s;
  delete = λ t k s. (contains k s, others k s);
  Absent = λ k s. contains k s ≡ false;
  delete-Absent = λ t k s. others-none k s;
  Absent-delete = λ t k j s h. others-less k j s h;
  Absent-set = λ t ttl k j s e h. rw e h;
  delete-none = λ t k s h. h;
}

abbrev complete : Settings
complete = record {
  auth_enabled = true;
  api_key = "key";
  api_secret = "secret";
  redirect_url = "url";
  encryption_key = "fernet";
  cipher = true;
}

abbrev exchanged : SessionData
exchanged = record { user = "AB1234"; access_token = "token" }

abbrev login : Callback
login = record {
  request_token = some "request";
  state = some "s1";
  exchange = λ token. ok exchanged;
  nonce = 1;
  now = day_us;
}

abbrev asked : Machine (List String)
asked = record {
  clock = day_us;
  auth =
      (create_login_url listed sample complete day_us "s1" (λ s. s)
        (record { states = []; table = no_sessions })).1;
}

asked_reach : Reach listed sample complete [] asked
asked_reach = later (fresh 0) (creates day_us "s1" (λ s. s) (omega arith))

login-is_ok : is_ok (handle_callback listed sample complete login asked.auth).0 ≡ true
unfolding handle_callback create_login_url
login-is_ok = refl

abbrev logged_in : Machine (List String)
logged_in = record {
  clock = day_us;
  auth = (handle_callback listed sample complete login asked.auth).1;
}

logged_in_reach : Reach listed sample complete [] logged_in
logged_in_reach = later asked_reach (callbacks login (omega arith))

callback-once_example :
    is_ok (handle_callback listed sample complete login logged_in.auth).0 ≡ false
callback-once_example =
    callback-once listed sample complete login login "s1" day_us asked.auth logged_in refl refl
      login-is_ok here

reach-active_example :
    (count_if (λ row. is_active row.status) logged_in.auth.table.rows ≤ 1)
    × All
        (λ row.
          is_active row.status ≡ true
          → get_latest_session broker_zerodha logged_in.auth.table ≡ some row)
        logged_in.auth.table.rows
reach-active_example = reach-active listed sample complete [] logged_in logged_in_reach

login-access_example :
    get_active_session sample complete (day_us + 3) logged_in.auth.table
    ≡ access_at login exchanged (day_us + 3)
login-access_example =
    login-access listed sample complete [] asked login "request" exchanged (day_us + 3) tail-front
      front-blank asked_reach (omega arith) refl refl login-is_ok

next_kite_expiry_lem_example :
    (0 < next_kite_expiry 0)
    × (ist_time (next_kite_expiry 0) ≡ six_hours_us)
    × (next_kite_expiry 0 ≤ 1_800_000_000)
unfolding ist_time
next_kite_expiry_lem_example = next_kite_expiry_lem 0 1_800_000_000 (omega arith) refl
