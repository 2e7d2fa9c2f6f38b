-- ===== src/Decision/Payloads/Clean.antt =====
-- The keys that sanitising leaves in a payload.
use trader_ai.Common.{
  String, ◌≡◌, refl, inl, inr, none, List, Bool-cases, Json, Items, Fields, null, bool, num, str,
  arr, obj, other, nil, cons, end, field,
}
use trader_ai.Decision.Payloads.{
  is_prohibited, find_prohibited_key, find_in_items, find_in_fields, sanitize_mapping,
  sanitize_items, sanitize_fields, sanitize_raw_output,
}

module _ (lower : String → String) (replace : String → String → String → String)
    (secrets : List String) where
  mutual
    clean : (j : Json) → find_prohibited_key lower (sanitize_mapping lower replace secrets j) ≡ none
    clean null = refl
    clean (bool b) = refl
    clean (num n) = refl
    clean (str s) = refl
    clean (other s) = refl
    clean (arr items) = clean_items items
    clean (obj fields) = clean_fields fields

    clean_items :
        (items : Items) → find_in_items lower (sanitize_items lower replace secrets items) ≡ none
    clean_items nil = refl
    clean_items (cons j rest) = rw (clean j) (clean_items rest)

    clean_fields :
        (fields : Fields)
        → find_in_fields lower (sanitize_fields lower replace secrets fields) ≡ none
    clean_fields end = refl
    clean_fields (field k j rest) =
        let later = clean_fields rest in
        let here = clean j in
        elim (Bool-cases (is_prohibited (lower k))) [
          | inl e ↦ rw e later
          | inr e ↦ rw e (rw e (rw here later))
        ]

  -- What is kept of a raw output has no prohibited key at any depth, whatever the raw output is.
  pub sanitize_raw_output-clean :
      (raw : Json)
      → lower "diagnostic" ≡ "diagnostic"
      → find_prohibited_key lower (sanitize_raw_output lower replace secrets raw) ≡ none
  sanitize_raw_output-clean null h = rw h refl
  sanitize_raw_output-clean (bool b) h = rw h refl
  sanitize_raw_output-clean (num n) h = rw h refl
  sanitize_raw_output-clean (str s) h = rw h refl
  sanitize_raw_output-clean (arr items) h = rw h refl
  sanitize_raw_output-clean (obj fields) h = clean_fields fields
  sanitize_raw_output-clean (other s) h = rw h refl
