-- ===== src/Scanner/Signals.antt =====
-- `InMemoryScannerRepository` of backend/app/scanners/repository.py, and the counts that the loops of
-- service.py keep of what it stores.
use trader_ai.Common.{
  ℕ, zero, suc, ◌+◌, ◌-◌, String, Bool, true, false, not, Option, none, some, List, [], ◌∷◌, ◌++◌,
  str_eq, if◌then◌else◌, is_some, length, keep_if,
}
use trader_ai.Scanner.Schemas.{Veto, duplicate_signal}
use trader_ai.Paper.Schemas.{CompletedBar}
use trader_ai.Scanner.Strategies.{is_candidate, Evaluation}

-- `InMemoryScannerRepository`; the bars do not change here.
pub record Repository : Type 0 where
  pub bars_by_symbol : List (String × List CompletedBar)
  pub signals : List (String × Evaluation)

module _ {ℓ} {A : Type ℓ} where
  -- `d.get(key)` of a dict with text keys.
  abbrev pub text_get : String → List (String × A) → Option A
  text_get key [] = none
  text_get key ((k, a) ∷ rest) = if str_eq k key then some a else text_get key rest

  abbrev pub drop : ℕ → List A → List A
  drop zero xs = xs
  drop (suc n) [] = []
  drop (suc n) (x ∷ xs) = drop n xs

abbrev pub bars_or_empty : Option (List CompletedBar) → List CompletedBar
bars_or_empty none = []
bars_or_empty (some bars) = bars

-- `load_completed_bars`, without its bounds in time; the limits of the service are positive.
abbrev pub load_completed_bars : Repository → String → String → ℕ → List CompletedBar
load_completed_bars repo symbol timeframe limit =
    let bars =
      keep_if (λ (b : CompletedBar). str_eq b.timeframe timeframe)
        (bars_or_empty (text_get symbol repo.bars_by_symbol)) in
    drop (length bars - limit) bars

-- `insert_signal`
unfoldable pub insert_signal : String → Evaluation → Repository → Bool × Repository
insert_signal key e repo =
    if is_some (text_get key repo.signals)
    then (false, repo)
    else (true, record repo { signals = repo.signals ++ (key, e) ∷ [] })

-- The counts of a run; `vetoes` lists what the counter of vetoes counts.
pub record Tally : Type 0 where
  pub evaluated : ℕ
  pub inserted : ℕ
  pub duplicates : ℕ
  pub candidates : ℕ
  pub rejected : ℕ
  pub vetoes : List Veto

unfoldable pub no_tally : Tally
no_tally = record {
  evaluated = 0;
  inserted = 0;
  duplicates = 0;
  candidates = 0;
  rejected = 0;
  vetoes = [];
}

abbrev pub one_if : Bool → ℕ
one_if b = if b then 1 else 0

unfoldable pub count_evaluation : Evaluation → Tally → Tally
count_evaluation e t = record t {
  evaluated = t.evaluated + 1;
  candidates = t.candidates + one_if (is_candidate e.status);
  rejected = t.rejected + one_if (not (is_candidate e.status));
  vetoes = t.vetoes ++ e.veto_reasons;
}

unfoldable pub count_insert : Bool → Tally → Tally
count_insert true t = record t { inserted = t.inserted + 1 }
count_insert false t = record t {
  duplicates = t.duplicates + 1;
  vetoes = t.vetoes ++ duplicate_signal ∷ [];
}

abbrev pub stored_tally : Tally → Bool × Repository → Tally × Repository
stored_tally t (inserted, repo) = (count_insert inserted t, repo)

-- The end of a round of the loops over the strategies.
abbrev pub persist : Bool → String → Evaluation → Tally → Repository → Tally × Repository
persist wanted key e t repo =
    if wanted then stored_tally t (insert_signal key e repo) else (t, repo)

-- What a loop returns, or the repository that it leaves when it raises.
pub data Run : Type 0 where
  ran : Tally → Repository → Run
  raised : Repository → Run
