-- ===== src/MarketData/Watchlists/Strict.antt =====
-- The diagnosis of backend/app/market_data/watchlist_validation.py against the strict parser of
-- watchlist.py.
use trader_ai.Common.{
  ℕ, String, ◌≡◌, refl, ap, ◌∙◌, inl, inr, Bool, true, false, not, ◌&&◌, ◌||◌, Option, none, some,
  List, [], ◌∷◌, map, arith, str_eq, str_eq_iff, ltb, nat_eq, if◌then◌else◌, Bool-cases, length,
  is_empty, keep_if, All, text_comparable, number_comparable, contains, contains-unique, ℤ, ltb_ℤ,
  pos,
}
use trader_ai.MarketData.Watchlists.{
  WatchlistSymbol, key_of, Parsed, and_symbol, Diagnosis, issue_if, issues_of, valid_keys,
  valid_symbols, WatchlistSettings, WatchlistSource, stripped, is_from_file, source_of_file,
  load_watchlist_source, symbol_of, has_blank, parse_loop, parse_entries, add_invalid, add_symbol,
  diagnose_loop, parse_watchlist, strict_configured_watchlist, no_colon, missing_part, not_nse,
  duplicate_symbol, parsed, rejected_by, empty_issue, format_issue, duplicate_issue, nse_issue,
  maximum_issue, over_limit_issue,
}

no_issues :
    (a b c d e f : Bool)
    → is_empty (
        issue_if a empty_issue (
          issue_if b format_issue (
            issue_if c duplicate_issue
              (issue_if d nse_issue (issue_if e maximum_issue (issue_if f over_limit_issue []))))))
      ≡ true
    → (a ≡ false) × (b ≡ false) × (c ≡ false) × (d ≡ false) × (e ≡ false) × (f ≡ false)
no_issues true b c d e f h = absurd (grind (arith, h))
no_issues false true c d e f h = absurd (grind (arith, h))
no_issues false false true d e f h = absurd (grind (arith, h))
no_issues false false false true e f h = absurd (grind (arith, h))
no_issues false false false false true f h = absurd (grind (arith, h))
no_issues false false false false false true h = absurd (grind (arith, h))
no_issues false false false false false false h = (refl, refl, refl, refl, refl, refl)

keep_if-All :
    (p : WatchlistSymbol → Bool) (xs : List WatchlistSymbol)
    → All (λ x. p x ≡ true) xs
    → keep_if p xs ≡ xs
keep_if-All p [] h = refl
keep_if-All p (x ∷ xs) h = rw h.0 (ap (λ ys. x ∷ ys) (keep_if-All p xs h.1))

contained :
    (K : List String) (xs : List WatchlistSymbol)
    → ((k : String) → contains k (map key_of xs) ≡ true → contains k K ≡ true)
    → All (λ s. contains (key_of s) K ≡ true) xs
contained K [] h = tt
contained K (x ∷ xs) h = (
  h (key_of x) (rw ((str_eq_iff (key_of x) (key_of x)).1 refl) refl),
  contained K xs (λ k q. h k (ground (arith, q))),
)

unfiltered :
    (xs : List WatchlistSymbol)
    → keep_if (λ (s : WatchlistSymbol). not (contains (key_of s) [])) xs ≡ xs
unfiltered [] = refl
unfiltered (x ∷ xs) = ap (λ ys. x ∷ ys) (unfiltered xs)

-- Without duplicates the diagnosis keeps all of its symbols.
valid_symbols-all : (d : Diagnosis) → d.duplicates ≡ [] → valid_symbols d ≡ d.symbols
unfolding valid_symbols
valid_symbols-all d e = keep_if-All _ d.symbols (
    contained (valid_keys d) d.symbols
      (λ k h. contains-unique k _ ∙ rw (e, unfiltered d.symbols) h))

issues-filled :
    (entries : List String) (max_instruments : ℤ) (d : Diagnosis)
    → issues_of entries max_instruments d ≡ []
    → is_empty entries ≡ false
unfolding issues_of
issues-filled [] max_instruments d h = cc
issues-filled (e ∷ es) max_instruments d h = refl

not-false : (b : Bool) → not b ≡ false → b ≡ true
not-false b h = ground arith

empty-nil : (xs : List String) → is_empty xs ≡ true → xs ≡ []
empty-nil [] h = refl
empty-nil (x ∷ xs) h = absurd (grind (arith, h))

module _ (colons : String → ℕ) (parts : String → String × String) (clean : String → String) where
  abbrev IsClean : Diagnosis → Type 0
  IsClean d =
      (is_empty d.invalid_format ≡ true)
      × (is_empty d.duplicates ≡ true)
      × (is_empty d.non_nse ≡ true)

  invalid-unclean :
      (entry : String) (d : Diagnosis) → IsClean (add_invalid colons parts clean entry d) → ⊥
  invalid-unclean entry d h = absurd (grind (arith, h.0))

  duplicate-unclean :
      (entry : String) (s : WatchlistSymbol) (d : Diagnosis)
      → IsClean (add_symbol colons parts clean entry s true d)
      → ⊥
  duplicate-unclean entry s d h = absurd (grind (arith, h.1))

  -- A clean entry is of the exchange, and the others are clean.
  add_symbol-IsClean :
      (entry : String) (s : WatchlistSymbol) (d : Diagnosis)
      → IsClean (add_symbol colons parts clean entry s false d)
      → (str_eq s.exchange "NSE" ≡ true) × IsClean d
  add_symbol-IsClean entry s d h = elim (Bool-cases (str_eq s.exchange "NSE")) [
    | inl r ↦ (r, (h.0, h.1, rw r at h.2))
    | inr r ↦ absurd (grind (arith, rw r at h.2))
  ]

  one_colon :
      (n : ℕ) (blank : Bool)
      → (not (nat_eq n 1) || blank) ≡ false
      → (ltb n 1 ≡ false) × (blank ≡ false)
  one_colon n blank h = ground arith

  parse_loop-diagnose :
      (seen entries : List String)
      → IsClean (diagnose_loop colons parts clean seen entries)
      → parse_loop colons parts clean seen entries
        ≡ parsed (diagnose_loop colons parts clean seen entries).symbols
  parse_loop-diagnose seen [] h = refl
  parse_loop-diagnose seen (entry ∷ entries) h =
      let s = symbol_of colons parts clean entry in
      let same = diagnose_loop colons parts clean seen entries in
      let more = diagnose_loop colons parts clean (key_of s ∷ seen) entries in
      let blank = has_blank colons parts clean s in
      entry-diagnose (colons entry) blank (contains (key_of s) seen) entry s same more
        (parse_loop colons parts clean (key_of s ∷ seen) entries)
        (λ q. parse_loop-diagnose (key_of s ∷ seen) entries q) h
    where
      entry-diagnose :
          (n : ℕ) (blank old : Bool) (entry : String) (s : WatchlistSymbol) (same more : Diagnosis)
          (rest : Parsed)
          → (IsClean more → rest ≡ parsed more.symbols)
          → IsClean (
              if not (nat_eq n 1) || blank
              then add_invalid colons parts clean entry same
              else if old
              then add_symbol colons parts clean entry s true same
              else add_symbol colons parts clean entry s false more)
          → (if ltb n 1
              then rejected_by no_colon
              else if blank
              then rejected_by missing_part
              else if not (str_eq s.exchange "NSE")
              then rejected_by not_nse
              else if old
              then rejected_by duplicate_symbol
              else and_symbol s rest)
            ≡ parsed
                (if not (nat_eq n 1) || blank
                  then add_invalid colons parts clean entry same
                  else if old
                  then add_symbol colons parts clean entry s true same
                  else add_symbol colons parts clean entry s false more).symbols
      entry-diagnose n blank old entry s same more rest ih h =
          elim (Bool-cases (not (nat_eq n 1) || blank)) [
            | inl r ↦ absurd (invalid-unclean entry same (rw r at h))
            | inr r ↦ elim (Bool-cases old) [
              | inl q ↦ absurd (duplicate-unclean entry s same (rw (r, q) at h))
              | inr q ↦
                  let (nse, c) = add_symbol-IsClean entry s more (rw (r, q) at h) in
                  let (colon, full) = one_colon n blank r in rw (r, colon, full, nse, q, ih c) refl
            ]
          ]

  diagnose-parse_entries :
      (entries : List String) (max_instruments : ℤ)
      → issues_of entries max_instruments (diagnose_loop colons parts clean [] entries) ≡ []
      → parse_entries colons parts clean entries max_instruments
        ≡ parsed (valid_symbols (diagnose_loop colons parts clean [] entries))
  unfolding issues_of
  diagnose-parse_entries entries max_instruments h =
      let d = diagnose_loop colons parts clean [] entries in
      let over = ltb_ℤ max_instruments (pos 1) in
      let (filled, format, single, nse, positive, within) =
        no_issues (is_empty entries) (not (is_empty d.invalid_format)) (not (is_empty d.duplicates))
          (not (is_empty d.non_nse)) over (not over && ltb_ℤ max_instruments (pos (length entries)))
          (ap is_empty h) in
      let none_twice = not-false (is_empty d.duplicates) single in
      let fits = rw positive at within in
      rw (positive, filled, fits, valid_symbols-all d (empty-nil d.duplicates none_twice))
        (parse_loop-diagnose [] entries (
          not-false (is_empty d.invalid_format) format,
          none_twice,
          not-false (is_empty d.non_nse) nse,
        ))

module _ (split : String → List String) (join : List String → String) (strip : String → String)
    (is_comment : String → Bool) (colons : String → ℕ) (parts : String → String × String)
    (clean : String → String) (strip_idem : (s : String) → strip (strip s) ≡ strip s) where
  abbrev source_of : WatchlistSettings → WatchlistSource
  source_of = load_watchlist_source split join strip is_comment

  stripped_idem : (xs : List String) → stripped strip (stripped strip xs) ≡ stripped strip xs
  stripped_idem [] = refl
  stripped_idem (x ∷ xs) = elim (Bool-cases (not (str_eq (strip x) ""))) [
    | inl e ↦ rw (e, strip_idem x, e) (ap (◌∷◌ (strip x)) (stripped_idem xs))
    | inr e ↦ rw e (stripped_idem xs)
  ]

  -- Cutting the raw list again gives the entries.
  abbrev pub Resplits : WatchlistSource → Type 0
  Resplits source = split source.raw_watchlist ≡ source.entries

  cut_again :
      (settings : WatchlistSettings)
      → (is_from_file settings ≡ true → Resplits (source_of settings))
      → is_empty (source_of settings).entries ≡ false
      → ((source_of settings).has_errors ≡ false)
        × (stripped strip (split (source_of settings).raw_watchlist) ≡ (source_of settings).entries)
  unfolding load_watchlist_source
  cut_again settings h filled = elim (Bool-cases (is_from_file settings)) [
    | inr e ↦ rw e (refl, refl)
    | inl e ↦ rw e (cut_file settings.file_lines (rw e at h refl) (rw e at filled))
  ]
    where
      cut_file :
          (lines : Option (List String))
          → Resplits (source_of_file split join strip is_comment lines)
          → is_empty (source_of_file split join strip is_comment lines).entries ≡ false
          → ((source_of_file split join strip is_comment lines).has_errors ≡ false)
            × (stripped strip
                  (split (source_of_file split join strip is_comment lines).raw_watchlist)
                ≡ (source_of_file split join strip is_comment lines).entries)
      cut_file none h filled = cc
      cut_file (some lines) h filled = (refl, ap (stripped strip) h ∙ stripped_idem _)

  -- Where the diagnosis of the configured entries finds no error, the strict parser accepts the
  -- configured list and gives exactly the symbols of the diagnosis. `strip` changes nothing more
  -- when it is applied again. A list from a file is to be one that cutting the joined entries at
  -- commas gives back, as it is where no line has a comma.
  pub diagnose-strict_configured_watchlist :
      (settings : WatchlistSettings)
      → (is_from_file settings ≡ true → Resplits (source_of settings))
      → issues_of
          (source_of settings).entries
          settings.max_instruments
          (diagnose_loop colons parts clean [] (source_of settings).entries)
        ≡ []
      → strict_configured_watchlist split join strip is_comment colons parts clean settings
        ≡ parsed (valid_symbols (diagnose_loop colons parts clean [] (source_of settings).entries))
  unfolding strict_configured_watchlist parse_watchlist
  diagnose-strict_configured_watchlist settings again h =
      let entries = (source_of settings).entries in
      let (readable, same_) = cut_again settings again (
        issues-filled entries settings.max_instruments (diagnose_loop colons parts clean [] entries)
          h) in
      rw (readable, same_)
        (diagnose-parse_entries colons parts clean entries settings.max_instruments h)
