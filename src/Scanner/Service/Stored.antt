-- ===== src/Scanner/Service/Stored.antt =====
-- The signals that backend/app/scanners/service.py and repository.py store: how a scan changes them.
use trader_ai.Common.{
  ℕ, String, ◌≡◌, refl, sym, ap, ◌∙◌, subst, inl, inr, Bool, true, false, Option, some, List, [],
  ◌∷◌, ◌++◌, arith, str_eq, str_eq_iff, Bool-cases, Option-cases, is_some, text_comparable,
  number_comparable, contains, IsDistinct, IsDistinct-snoc,
}
use trader_ai.Scanner.Schemas.{ScannerConfig, IndicatorSnapshot, Status, veto_comparable}
use trader_ai.Paper.Schemas.{CompletedBar}
use trader_ai.Scanner.Signals.{
  Repository, text_get, insert_signal, Tally, count_evaluation, persist, Run, ran, raised,
}
use trader_ai.Scanner.Strategies.{Evaluation}
use trader_ai.Scanner.Service.{signal_key, evaluate_bars, run_strategies}

abbrev pub names_of : List (String × Evaluation) → List String
names_of [] = []
names_of ((k, e) ∷ rest) = k ∷ names_of rest

-- The bars stay, every stored signal stays as it is, and keys stay distinct.
abbrev pub Grows : Repository → Repository → Type 0
Grows repo repo' =
    (repo'.bars_by_symbol ≡ repo.bars_by_symbol)
    × ((k : String) (e : Evaluation)
        → text_get k repo.signals ≡ some e
        → text_get k repo'.signals ≡ some e)
    × (IsDistinct (names_of repo.signals) → IsDistinct (names_of repo'.signals))

pub Grows-refl : (repo : Repository) → Grows repo repo
Grows-refl repo = (refl, (λ k e h. h), (λ h. h))

pub Grows-trans : (a b c : Repository) → Grows a b → Grows b c → Grows a c
Grows-trans a b c f g = (g.0 ∙ f.0, (λ k e h. g.1 k e (f.1 k e h)), (λ h. g.2 (f.2 h)))

text_get-append :
    (k : String) (e : Evaluation) (xs ys : List (String × Evaluation))
    → text_get k xs ≡ some e
    → text_get k (xs ++ ys) ≡ some e
text_get-append k e [] ys h = absurd (grind (arith, h))
text_get-append k e ((j, d) ∷ xs) ys h = elim (Bool-cases (str_eq j k)) [
  | inl r ↦ rw r (rw r at h)
  | inr r ↦ rw r (text_get-append k e xs ys (rw r at h))
]

text_get-last :
    (k : String) (e : Evaluation) (xs : List (String × Evaluation))
    → is_some (text_get k (xs ++ (k, e) ∷ [])) ≡ true
text_get-last k e [] = rw ((str_eq_iff k k).1 refl) refl
text_get-last k e ((j, d) ∷ xs) = elim (Bool-cases (str_eq j k)) [
  | inl r ↦ rw r refl
  | inr r ↦ rw r (text_get-last k e xs)
]

names_of-append :
    (xs : List (String × Evaluation)) (k : String) (e : Evaluation)
    → names_of (xs ++ (k, e) ∷ []) ≡ names_of xs ++ k ∷ []
names_of-append [] k e = refl
names_of-append ((j, d) ∷ xs) k e = ap (λ zs. j ∷ zs) (names_of-append xs k e)

contains-names_of :
    (k : String) (xs : List (String × Evaluation))
    → is_some (text_get k xs) ≡ false
    → contains k (names_of xs) ≡ false
contains-names_of k [] h = refl
contains-names_of k ((j, d) ∷ xs) h = elim (Bool-cases (str_eq j k)) [
  | inl r ↦ absurd (grind (arith, rw r at h))
  | inr r ↦ rw r (contains-names_of k xs (rw r at h))
]

insert_signal-Grows :
    (k : String) (e : Evaluation) (repo : Repository) → Grows repo (insert_signal k e repo).1
unfolding insert_signal
insert_signal-Grows k e repo = elim (Bool-cases (is_some (text_get k repo.signals))) [
  | inl r ↦ rw r (Grows-refl repo)
  | inr r ↦ rw r (
    refl,
    (λ j d h. text_get-append j d repo.signals ((k, e) ∷ []) h),
    (λ h.
        subst (λ ns. IsDistinct ns) (sym (names_of-append repo.signals k e))
          (IsDistinct-snoc k (names_of repo.signals) (contains-names_of k repo.signals r) h)),
  )
]

pub persist-Grows :
    (wanted : Bool) (k : String) (e : Evaluation) (t : Tally) (repo : Repository)
    → Grows repo (persist wanted k e t repo).1
persist-Grows true k e t repo = insert_signal-Grows k e repo
persist-Grows false k e t repo = Grows-refl repo

-- A signal that was to be stored is there.
pub persist-key :
    (k : String) (e : Evaluation) (t : Tally) (repo : Repository)
    → is_some (text_get k (persist true k e t repo).1.signals) ≡ true
unfolding insert_signal
persist-key k e t repo = elim (Bool-cases (is_some (text_get k repo.signals))) [
  | inl r ↦ rw r r
  | inr r ↦ rw r (text_get-last k e repo.signals)
]

pub persist-same :
    (k : String) (e : Evaluation) (t : Tally) (repo : Repository)
    → is_some (text_get k repo.signals) ≡ true
    → (persist true k e t repo).1 ≡ repo
unfolding insert_signal
persist-same k e t repo h = rw h refl

abbrev pub run_repository : Run → Repository
run_repository (ran t repo) = repo
run_repository (raised repo) = repo

module _ (upper : String → String) (iso : ℕ → String)
    (indicators : List CompletedBar → Option (List CompletedBar) → IndicatorSnapshot)
    (config : ScannerConfig) (wanted : Status → Bool) (run_id : Option String) (id : ℕ)
    (symbol timeframe : String) (bars : List CompletedBar) (benchmark : Option (List CompletedBar))
    (stale : Bool) where
  pub run_strategies-Grows :
      (names : List String) (t : Tally) (repo : Repository)
      → Grows repo (
          run_repository (
            run_strategies upper iso indicators config wanted run_id id symbol timeframe bars
              benchmark stale names t repo))
  run_strategies-Grows [] t repo = Grows-refl repo
  run_strategies-Grows (name ∷ names) t repo =
      elim (Option-cases
        (evaluate_bars upper iso indicators config name id symbol timeframe bars benchmark stale)) [
          | inl r ↦ rw (r, Grows, run_repository) (Grows-refl repo)
          | inr (e, r) ↦
              let key = signal_key iso run_id symbol timeframe name e.signal_time in
              let next = persist (wanted e.status) key e (count_evaluation e t) repo in
              rw (r, Grows, run_repository)
                (Grows-trans repo next.1 _
                  (persist-Grows (wanted e.status) key e (count_evaluation e t) repo)
                  (run_strategies-Grows names next.0 next.1))
        ]
