-- ===== src/Scanner/Service/Batch.antt =====
-- `run_batch` and `_normalize_symbols` of backend/app/scanners/service.py. The latest universe and
-- the strict watchlist come from the other services; `split` cuts a text at its only colon.
use trader_ai.Common.{
  ℕ, ◌+◌, String, Bool, true, false, not, ◌&&◌, ◌||◌, Option, none, some, List, [], ◌∷◌, str_eq,
  if◌then◌else◌, is_some, length, text_comparable, number_comparable, contains, ℤ, ltb_ℤ, leb_ℤ,
  pos,
}
use trader_ai.Scanner.Schemas.{ScannerConfig, IndicatorSnapshot, veto_comparable}
use trader_ai.Paper.Schemas.{CompletedBar}
use trader_ai.Scanner.Signals.{Repository, Tally, no_tally}
use mathlib.Core.Option
use trader_ai.Scanner.Service.{Policy, SymbolResult, run_symbol}

pub data ScannerError : Type 0 where
  scanner_disabled scanner_input scanner_config selected_universe_missing : ScannerError

pub data Fallible (A : Type 0) : Type 0 where
  done : A → Fallible A
  fails : ScannerError → Fallible A

-- The tests of one entry of `_normalize_symbols`.
abbrev pub is_nse : Option (String × String) → Bool
is_nse none = false
is_nse (some (exchange, tradingsymbol)) = str_eq exchange "NSE" && not (str_eq tradingsymbol "")

-- The arguments of a batch, the settings that it reads, and what the other services give.
pub record Request : Type 0 where
  pub symbols : Option (List String)
  pub timeframe : String
  pub policy : Policy
  pub max_symbols : Option ℤ
  pub use_latest_universe : Bool
  pub use_latest_default : Bool
  pub max_instruments : ℤ
  pub latest_universe : Option (List String)
  pub watchlist : Fallible (List String)

pub record BatchResult : Type 0 where
  pub evaluated_symbols : ℕ
  pub total_evaluated : ℕ
  pub total_inserted : ℕ
  pub total_duplicates : ℕ
  pub total_candidates : ℕ
  pub total_rejected : ℕ
  pub per_symbol : List SymbolResult
  pub errors : List String

-- `sum(f(item) for item in per_symbol)`
abbrev pub sum_of : (Tally → ℕ) → List SymbolResult → ℕ
sum_of f [] = 0
sum_of f (r ∷ rs) = f r.tally + sum_of f rs

abbrev pub failed_symbols : List SymbolResult → List String
failed_symbols [] = []
failed_symbols (r ∷ rs) = let rest = failed_symbols rs in if r.error then r.symbol ∷ rest else rest

unfoldable pub batch_result : ℕ → List SymbolResult → BatchResult
batch_result n per_symbol = record {
  evaluated_symbols = n;
  total_evaluated = sum_of (λ t. t.evaluated) per_symbol;
  total_inserted = sum_of (λ t. t.inserted) per_symbol;
  total_duplicates = sum_of (λ t. t.duplicates) per_symbol;
  total_candidates = sum_of (λ t. t.candidates) per_symbol;
  total_rejected = sum_of (λ t. t.rejected) per_symbol;
  per_symbol = per_symbol;
  errors = failed_symbols per_symbol;
}

-- `max_symbols or market_data_max_instruments`
abbrev pub limit_or : ℤ → Option ℤ → ℤ
limit_or default none = default
limit_or default (some n) = if leb_ℤ n (pos 0) && leb_ℤ (pos 0) n then default else n

abbrev pub or_failed : String → Option SymbolResult → SymbolResult
or_failed symbol (some r) = r
or_failed symbol none = record {
  symbol = symbol;
  tally = no_tally;
  skipped_reason = none;
  error = true;
}

abbrev pub universe_or_fail : Option (List String) → Fallible (List String)
universe_or_fail none = fails selected_universe_missing
universe_or_fail (some []) = fails selected_universe_missing
universe_or_fail (some (s ∷ ss)) = done (s ∷ ss)

-- `symbols or [item.key for item in strict_configured_watchlist(...)]`
abbrev pub symbols_or : Fallible (List String) → Option (List String) → Fallible (List String)
symbols_or watchlist none = watchlist
symbols_or watchlist (some []) = watchlist
symbols_or watchlist (some (s ∷ ss)) = done (s ∷ ss)

module _ (strip upper : String → String) (split : String → Option (String × String)) where
  -- The loop of `_normalize_symbols`, with the values seen so far.
  abbrev pub normalize_from : List String → List String → Option (List String)
  normalize_from seen [] = some []
  normalize_from seen (raw ∷ rest) =
      let value = upper (strip raw) in
      let again = normalize_from seen rest in
      let first = Option.map (λ vs. value ∷ vs) (normalize_from (value ∷ seen) rest) in
      if str_eq value "" || not (is_nse (split value))
      then none
      else if contains value seen
      then again
      else first

  abbrev pub not_empty : Option (List String) → Fallible (List String)
  not_empty none = fails scanner_input
  not_empty (some []) = fails scanner_input
  not_empty (some (v ∷ vs)) = done (v ∷ vs)

  -- `_normalize_symbols`
  unfoldable pub normalize_symbols : List String → Fallible (List String)
  normalize_symbols symbols = not_empty (normalize_from [] symbols)

  abbrev pub checked_count : ℤ → Fallible (List String) → Fallible (List String)
  checked_count limit (fails e) = fails e
  checked_count limit (done symbols) =
      if ltb_ℤ limit (pos 1) || ltb_ℤ limit (pos (length symbols))
      then fails scanner_input
      else done symbols

  abbrev pub normalized : Fallible (List String) → Fallible (List String)
  normalized (fails e) = fails e
  normalized (done selected) = normalize_symbols selected

  -- The symbols of a batch, or the error that it raises before its loop.
  unfoldable pub batch_symbols : ScannerConfig → Request → Fallible (List String)
  batch_symbols config req =
      if not (str_eq req.timeframe "1minute")
      then fails scanner_input
      else if not config.enabled
      then fails scanner_disabled
      else if is_some req.symbols && (req.use_latest_universe || req.use_latest_default)
      then fails scanner_input
      else checked_count (limit_or req.max_instruments req.max_symbols) (
          normalized (
            if req.use_latest_universe || req.use_latest_default
            then universe_or_fail req.latest_universe
            else symbols_or req.watchlist req.symbols))

  module _ (iso : ℕ → String)
      (indicators : List CompletedBar → Option (List CompletedBar) → IndicatorSnapshot)
      (config : ScannerConfig) (clock : String → ℕ) where
    -- The loop of `run_batch`; `clock` is read for each symbol.
    abbrev pub batch_loop :
        Policy → String → List String → Repository → List SymbolResult × Repository
    batch_loop policy timeframe [] repo = ([], repo)
    batch_loop policy timeframe (symbol ∷ symbols) repo =
        let r =
          run_symbol upper iso indicators config policy (clock symbol) none symbol timeframe repo in
        let rest = batch_loop policy timeframe symbols r.1 in
        (or_failed symbol r.0 ∷ rest.0, rest.1)

    abbrev pub run_symbols :
        Request → Fallible (List String) → Repository → Fallible BatchResult × Repository
    run_symbols req (fails e) repo = (fails e, repo)
    run_symbols req (done symbols) repo =
        let r = batch_loop req.policy req.timeframe symbols repo in
        (done (batch_result (length symbols) r.0), r.1)

    -- `run_batch`
    unfoldable pub run_batch : Request → Repository → Fallible BatchResult × Repository
    run_batch req repo = run_symbols req (batch_symbols config req) repo
