-- ===== src/MarketData/Watchlists/Tests.antt =====
-- Lists from the environment and from a file that both readings accept, and two that only one does.
use Prim.Native.String.{◌++◌ as append_text}
use trader_ai.Common.{ℕ, String, ◌≡◌, refl, Bool, some, List, [], ◌∷◌, str_eq, if◌then◌else◌, pos}
use trader_ai.MarketData.Watchlists.{
  Parsed, Issue, issues_of, valid_symbols, WatchlistSettings, load_watchlist_source, diagnose_loop,
  parse_watchlist, strict_configured_watchlist, no_colon, parsed, rejected_by, format_issue,
}
use trader_ai.MarketData.Watchlists.Strict.{diagnose-strict_configured_watchlist}

abbrev split : String → List String
split s =
    if str_eq s "NSE:SBIN,NSE:TCS"
    then "NSE:SBIN" ∷ "NSE:TCS" ∷ []
    else if str_eq s "NSE:A,B"
    then "NSE:A" ∷ "B" ∷ []
    else s ∷ []

abbrev join : List String → String
join [] = ""
join (x ∷ []) = x
join (x ∷ y ∷ ys) = append_text x (append_text "," (join (y ∷ ys)))

abbrev strip : String → String
strip s = s

abbrev is_comment : String → Bool
is_comment s = str_eq s "# a comment"

abbrev colons : String → ℕ
colons s = if str_eq s "NSE:A:B" then 2 else if str_eq s "B" then 0 else 1

abbrev parts : String → String × String
parts s =
    if str_eq s "NSE:SBIN"
    then ("NSE", "SBIN")
    else if str_eq s "NSE:A:B"
    then ("NSE", "A:B")
    else if str_eq s "NSE:A,B"
    then ("NSE", "A,B")
    else ("NSE", "TCS")

abbrev clean : String → String
clean s = s

abbrev settings_of : String → String → List String → WatchlistSettings
settings_of file text lines = record {
  watchlist_file = file;
  watchlist = text;
  file_lines = some lines;
  max_instruments = pos 5;
}

abbrev strict : WatchlistSettings → Parsed
strict = strict_configured_watchlist split join strip is_comment colons parts clean

abbrev entries_of : WatchlistSettings → List String
entries_of settings = (load_watchlist_source split join strip is_comment settings).entries

abbrev issues : WatchlistSettings → List Issue
issues settings =
    issues_of (entries_of settings) (pos 5)
      (diagnose_loop colons parts clean [] (entries_of settings))

abbrev two_lines : WatchlistSettings
two_lines = settings_of "watchlist.txt" "" ("NSE:SBIN" ∷ "# a comment" ∷ "NSE:TCS" ∷ [])

diagnose-strict_configured_watchlist_example :
    strict two_lines
    ≡ parsed (valid_symbols (diagnose_loop colons parts clean [] (entries_of two_lines)))
unfolding load_watchlist_source issues_of
diagnose-strict_configured_watchlist_example =
    diagnose-strict_configured_watchlist split join strip is_comment colons parts clean (λ s. refl)
      two_lines (λ file. refl) refl

-- The diagnosis refuses an entry with two colons, and the strict parser accepts it.
two_colons :
    (issues (settings_of "" "NSE:A:B" []) ≡ format_issue ∷ [])
    × (strict (settings_of "" "NSE:A:B" [])
        ≡ parsed (record { exchange = "NSE"; tradingsymbol = "A:B" } ∷ []))
unfolding issues_of strict_configured_watchlist parse_watchlist load_watchlist_source
two_colons = (refl, refl)

-- The diagnosis accepts a line with a comma, and the strict parser refuses it.
comma_in_line :
    (issues (settings_of "watchlist.txt" "" ("NSE:A,B" ∷ [])) ≡ [])
    × (strict (settings_of "watchlist.txt" "" ("NSE:A,B" ∷ [])) ≡ rejected_by no_colon)
unfolding issues_of strict_configured_watchlist parse_watchlist load_watchlist_source
comma_in_line = (refl, refl)
