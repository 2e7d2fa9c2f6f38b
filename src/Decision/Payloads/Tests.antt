-- ===== src/Decision/Payloads/Tests.antt =====
-- An output with a key that names an order.
use trader_ai.Common.{
  String, ◌≡◌, refl, none, some, [], ◌∷◌, str_eq, if◌then◌else◌, Json, str, obj, end, field,
}
use trader_ai.Decision.Payloads.{find_prohibited_key, sanitize_raw_output}
use trader_ai.Decision.Payloads.Clean.{sanitize_raw_output-clean}

abbrev pub lower : String → String
lower s = s

abbrev pub replace : String → String → String → String
replace s old new = if str_eq s old then new else s

abbrev raw : Json
raw = obj (
    field "verdict" (str "WATCH")
      (field "notes" (obj (field "order_type" (str "LIMIT") (field "memo" (str "key") end))) end))

found : find_prohibited_key lower raw ≡ some "order_type"
found = refl

sanitized :
    sanitize_raw_output lower replace ("key" ∷ []) raw
    ≡ obj (
        field "verdict"
          (str "WATCH")
          (field "notes" (obj (field "memo" (str "[redacted]") end)) end))
sanitized = refl

sanitize_raw_output-clean_example :
    find_prohibited_key lower (sanitize_raw_output lower replace ("key" ∷ []) raw) ≡ none
sanitize_raw_output-clean_example = sanitize_raw_output-clean lower replace ("key" ∷ []) raw refl
