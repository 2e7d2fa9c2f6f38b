-- ===== src/MarketData/Watchlists.antt =====
-- backend/app/market_data/watchlist.py, and of watchlist_validation.py `load_watchlist_source`,
-- `strict_configured_watchlist` and `_diagnose_entries`. Python's methods on texts are parameters:
-- `split` and `join` at commas, `strip`, `colons` (`count(":")`), `parts` (`split(":", 1)`),
-- `clean` (`strip` and `upper`) and `is_comment` (`lstrip().startswith("#")`). The diagnosis lists
-- its keys without sorting.
pub mod Strict
mod Tests
use Prim.Native.String.{◌++◌ as append_text}
use trader_ai.Common.{
  ℕ, String, Bool, true, false, not, ◌&&◌, ◌||◌, Option, none, some, List, [], ◌∷◌, ◌++◌, map,
  str_eq, ltb, nat_eq, if◌then◌else◌, length, is_empty, keep_if, text_comparable, number_comparable,
  contains, unique, ℤ, ltb_ℤ, pos,
}

pub record WatchlistSymbol : Type 0 where
  pub exchange : String
  pub tradingsymbol : String

-- `WatchlistSymbol.key`
abbrev pub key_of : WatchlistSymbol → String
key_of s = append_text s.exchange (append_text ":" s.tradingsymbol)

pub data WatchlistError : Type 0 where
  max_not_positive watchlist_empty over_maximum no_colon missing_part not_nse : WatchlistError
  duplicate_symbol unreadable : WatchlistError

pub data Parsed : Type 0 where
  parsed : List WatchlistSymbol → Parsed
  rejected_by : WatchlistError → Parsed

abbrev pub and_symbol : WatchlistSymbol → Parsed → Parsed
and_symbol s (parsed symbols) = parsed (s ∷ symbols)
and_symbol s (rejected_by e) = rejected_by e

-- The lists that the loop of `_diagnose_entries` fills.
pub record Diagnosis : Type 0 where
  pub parsed_symbols : List String
  pub normalized_symbols : List String
  pub invalid_format : List String
  pub duplicates : List String
  pub non_nse : List String
  pub symbols : List WatchlistSymbol

abbrev pub no_diagnosis : Diagnosis
no_diagnosis = record {
  parsed_symbols = [];
  normalized_symbols = [];
  invalid_format = [];
  duplicates = [];
  non_nse = [];
  symbols = [];
}

pub data Issue : Type 0 where
  empty_issue format_issue duplicate_issue nse_issue maximum_issue over_limit_issue : Issue

abbrev pub issue_if : Bool → Issue → List Issue → List Issue
issue_if true issue rest = issue ∷ rest
issue_if false issue rest = rest

abbrev pub entry_if {ℓ} : {A : Type ℓ} → Bool → A → List A → List A
entry_if b a rest = if b then a ∷ rest else rest

-- The `errors` of `_diagnose_entries`.
unfoldable pub issues_of : List String → ℤ → Diagnosis → List Issue
issues_of entries max_instruments d = issue_if (is_empty entries) empty_issue (
    issue_if (not (is_empty d.invalid_format)) format_issue (
      issue_if (not (is_empty d.duplicates)) duplicate_issue (
        issue_if (not (is_empty d.non_nse)) nse_issue (
          issue_if (ltb_ℤ max_instruments (pos 1)) maximum_issue (
            issue_if
              (not (ltb_ℤ max_instruments (pos 1)) && ltb_ℤ max_instruments (pos (length entries)))
              over_limit_issue [])))))

-- `[symbol.key for symbol in symbols if symbol.key not in duplicates]`, each once.
abbrev pub valid_keys : Diagnosis → List String
valid_keys d = unique (
    map key_of
      (keep_if (λ (s : WatchlistSymbol). not (contains (key_of s) d.duplicates)) d.symbols))

unfoldable pub valid_symbols : Diagnosis → List WatchlistSymbol
valid_symbols d = keep_if (λ (s : WatchlistSymbol). contains (key_of s) (valid_keys d)) d.symbols

-- The settings, with what reading the file gives; `none` is a file that cannot be read.
pub record WatchlistSettings : Type 0 where
  pub watchlist_file : String
  pub watchlist : String
  pub file_lines : Option (List String)
  pub max_instruments : ℤ

pub record WatchlistSource : Type 0 where
  pub raw_watchlist : String
  pub entries : List String
  pub has_errors : Bool

-- `[x.strip() for x in texts if x.strip()]`
abbrev pub stripped : (String → String) → List String → List String
stripped strip texts = keep_if (λ x. not (str_eq x "")) (map strip texts)

abbrev pub is_from_file : WatchlistSettings → Bool
is_from_file settings = not (str_eq settings.watchlist_file "")

module _ (split : String → List String) (join : List String → String) (strip : String → String)
    (is_comment : String → Bool) where
  abbrev pub entries_of_file : List String → List String
  entries_of_file lines = stripped strip (keep_if (λ line. not (is_comment line)) lines)

  abbrev pub source_of_file : Option (List String) → WatchlistSource
  source_of_file none = record { raw_watchlist = ""; entries = []; has_errors = true }
  source_of_file (some lines) = record {
    raw_watchlist = join (entries_of_file lines);
    entries = entries_of_file lines;
    has_errors = false;
  }

  unfoldable pub load_watchlist_source : WatchlistSettings → WatchlistSource
  load_watchlist_source settings =
      if is_from_file settings then source_of_file settings.file_lines else record {
        raw_watchlist = settings.watchlist;
        entries = stripped strip (split settings.watchlist);
        has_errors = false;
      }

module _ (colons : String → ℕ) (parts : String → String × String) (clean : String → String) where
  abbrev pub symbol_of : String → WatchlistSymbol
  symbol_of entry = record {
    exchange = clean (parts entry).0;
    tradingsymbol = clean (parts entry).1;
  }

  abbrev pub has_blank : WatchlistSymbol → Bool
  has_blank s = str_eq s.exchange "" || str_eq s.tradingsymbol ""

  -- The loop of `parse_watchlist`.
  abbrev pub parse_loop : List String → List String → Parsed
  parse_loop seen [] = parsed []
  parse_loop seen (entry ∷ entries) =
      let s = symbol_of entry in
      let rest = parse_loop (key_of s ∷ seen) entries in
      if ltb (colons entry) 1
      then rejected_by no_colon
      else if has_blank s
      then rejected_by missing_part
      else if not (str_eq s.exchange "NSE")
      then rejected_by not_nse
      else if contains (key_of s) seen
      then rejected_by duplicate_symbol
      else and_symbol s rest

  -- `parse_watchlist` from its entries.
  abbrev pub parse_entries : List String → ℤ → Parsed
  parse_entries entries max_instruments =
      if ltb_ℤ max_instruments (pos 1)
      then rejected_by max_not_positive
      else if is_empty entries
      then rejected_by watchlist_empty
      else if ltb_ℤ max_instruments (pos (length entries))
      then rejected_by over_maximum
      else parse_loop [] entries

  abbrev pub add_invalid : String → Diagnosis → Diagnosis
  add_invalid entry d = record d { invalid_format = entry ∷ d.invalid_format }

  abbrev pub add_symbol : String → WatchlistSymbol → Bool → Diagnosis → Diagnosis
  add_symbol entry s old d = record d {
    parsed_symbols = entry ∷ d.parsed_symbols;
    normalized_symbols = key_of s ∷ d.normalized_symbols;
    non_nse = entry_if (not (str_eq s.exchange "NSE")) (key_of s) d.non_nse;
    duplicates = entry_if old (key_of s) d.duplicates;
    symbols = entry_if (not old && str_eq s.exchange "NSE") s d.symbols;
  }

  -- The loop of `_diagnose_entries`.
  abbrev pub diagnose_loop : List String → List String → Diagnosis
  diagnose_loop seen [] = no_diagnosis
  diagnose_loop seen (entry ∷ entries) =
      let s = symbol_of entry in
      let same = diagnose_loop seen entries in
      let more = diagnose_loop (key_of s ∷ seen) entries in
      if not (nat_eq (colons entry) 1) || has_blank s
      then add_invalid entry same
      else if contains (key_of s) seen
      then add_symbol entry s true same
      else add_symbol entry s false more

module _ (split : String → List String) (join : List String → String) (strip : String → String)
    (is_comment : String → Bool) (colons : String → ℕ) (parts : String → String × String)
    (clean : String → String) where
  unfoldable pub parse_watchlist : String → ℤ → Parsed
  parse_watchlist raw_watchlist max_instruments =
      parse_entries colons parts clean (stripped strip (split raw_watchlist)) max_instruments

  unfoldable pub strict_configured_watchlist : WatchlistSettings → Parsed
  strict_configured_watchlist settings =
      let source = load_watchlist_source split join strip is_comment settings in
      if source.has_errors
      then rejected_by unreadable
      else parse_watchlist source.raw_watchlist settings.max_instruments
