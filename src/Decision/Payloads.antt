-- ===== src/Decision/Payloads.antt =====
-- The scans of a raw output in backend/app/decision/service.py. `lower` is `str.lower` and
-- `replace` is `str.replace`; `x in y` of strings is a search for a substring.
pub mod Clean
pub mod Tests
use trader_ai.Common.{
  String, Bool, false, ◌||◌, Option, none, some, List, [], ◌∷◌, if◌then◌else◌, is_some, any_of,
  Json, Items, Fields, null, bool, num, str, arr, obj, other, nil, cons, end, field,
}
use text.Mathlib.Text.{find?}

abbrev pub prohibited_key_fragments : List String
prohibited_key_fragments =
    "quantity" ∷ "order" ∷ "broker" ∷ "position_size" ∷ "risk_override" ∷ "access_token" ∷ "api_key"
    ∷ "secret" ∷ []

-- `any(fragment in normalized for fragment in PROHIBITED_KEY_FRAGMENTS)`
abbrev pub is_prohibited : String → Bool
is_prohibited normalized = any_of (λ f. is_some (find? normalized f)) prohibited_key_fragments

abbrev pub or_else : Option String → Option String → Option String
or_else (some x) later = some x
or_else none later = later

abbrev mutual
  pub find_prohibited_key : (String → String) → Json → Option String
  find_prohibited_key lower null = none
  find_prohibited_key lower (bool b) = none
  find_prohibited_key lower (num n) = none
  find_prohibited_key lower (str s) = none
  find_prohibited_key lower (arr items) = find_in_items lower items
  find_prohibited_key lower (obj fields) = find_in_fields lower fields
  find_prohibited_key lower (other s) = none

  pub find_in_items : (String → String) → Items → Option String
  find_in_items lower nil = none
  find_in_items lower (cons j rest) =
      or_else (find_prohibited_key lower j) (find_in_items lower rest)

  pub find_in_fields : (String → String) → Fields → Option String
  find_in_fields lower end = none
  find_in_fields lower (field k j rest) =
      let later = or_else (find_prohibited_key lower j) (find_in_fields lower rest) in
      if is_prohibited (lower k) then some (lower k) else later

-- `for secret in secrets: safe = safe.replace(secret, "[redacted]")`
abbrev pub redact : (String → String → String → String) → List String → String → String
redact replace [] safe = safe
redact replace (secret ∷ rest) safe = redact replace rest (replace safe secret "[redacted]")

module _ (lower : String → String) (replace : String → String → String → String)
    (secrets : List String) where
  abbrev mutual
    pub sanitize_mapping : Json → Json
    sanitize_mapping null = null
    sanitize_mapping (bool b) = bool b
    sanitize_mapping (num n) = num n
    sanitize_mapping (str s) = str (redact replace secrets s)
    sanitize_mapping (arr items) = arr (sanitize_items items)
    sanitize_mapping (obj fields) = obj (sanitize_fields fields)
    sanitize_mapping (other s) = str s

    pub sanitize_items : Items → Items
    sanitize_items nil = nil
    sanitize_items (cons j rest) = cons (sanitize_mapping j) (sanitize_items rest)

    pub sanitize_fields : Fields → Fields
    sanitize_fields end = end
    sanitize_fields (field k j rest) =
        let kept = field k (sanitize_mapping j) (sanitize_fields rest) in
        let skipped = sanitize_fields rest in if is_prohibited (lower k) then skipped else kept

  -- `_sanitize_raw_output`
  abbrev pub sanitize_raw_output : Json → Json
  sanitize_raw_output (obj fields) = obj (sanitize_fields fields)
  sanitize_raw_output _ = obj (field "diagnostic" (str "non_object_output") end)

abbrev mutual
  pub contains_secret_value : List String → Json → Bool
  contains_secret_value secrets (str s) = any_of (λ secret. is_some (find? s secret)) secrets
  contains_secret_value secrets (arr items) = secret_in_items secrets items
  contains_secret_value secrets (obj fields) = secret_in_fields secrets fields
  contains_secret_value secrets null = false
  contains_secret_value secrets (bool b) = false
  contains_secret_value secrets (num n) = false
  contains_secret_value secrets (other s) = false

  pub secret_in_items : List String → Items → Bool
  secret_in_items secrets nil = false
  secret_in_items secrets (cons j rest) =
      contains_secret_value secrets j || secret_in_items secrets rest

  pub secret_in_fields : List String → Fields → Bool
  secret_in_fields secrets end = false
  secret_in_fields secrets (field k j rest) =
      contains_secret_value secrets j || secret_in_fields secrets rest
