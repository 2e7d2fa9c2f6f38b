-- ===== src/Paper/Service/Caps.antt =====
-- The daily cap on trades over a whole replay.
use trader_ai.Common.{
  ℕ, ◌+◌, ◌≤◌, String, ◌≡◌, refl, sym, ◌∙◌, subst, inl, inr, false, Option, List, [], ◌∷◌, ◌++◌,
  map, arith, nat_eq, nat_eq_iff, Bool-cases, count_if, count_if-append, All, All-keep_if, All-take,
  All-zip, text_comparable, number_comparable, contains, IsDistinct, ℤ, pos_part, ◌<ℤ◌, pos, negsuc,
  ist_date,
}
use trader_ai.Paper.Schemas.{PaperConfig, PaperSignal, PaperSimulationResult}
use trader_ai.Paper.Repository.{
  Trade, Store, signal_le, insert_signal, sort_signals, matches, load_candidate_signals, ids_of_day,
  count_paper_trades_for_day, has_entry_attempt, has_exit,
}
use trader_ai.Paper.Service.{bounded_limit, run_replay, replayed}
use trader_ai.Paper.Service.Keeps.{recorded, RecordsOne}
use trader_ai.Paper.Service.Trades.{trades-recorded, selected}
use trader_ai.Paper.Service.Runs.{run_replay-keeps}

-- A signal of another day is not among the signals of `day`.
abbrev IsElsewhere : ℕ → List PaperSignal → PaperSignal → Type 0
IsElsewhere day ss s =
    nat_eq (ist_date s.signal_time) day ≡ false → contains s.id (ids_of_day day ss) ≡ false

ids_of_day_sub :
    (n day : ℕ) (ss : List PaperSignal)
    → contains n (map PaperSignal.id ss) ≡ false
    → contains n (ids_of_day day ss) ≡ false
ids_of_day_sub n day [] h = refl
ids_of_day_sub n day (s ∷ ss) h = ground (arith, ids_of_day_sub n day ss)

differ :
    (n : ℕ) (ss : List PaperSignal)
    → contains n (map PaperSignal.id ss) ≡ false
    → All (λ (s : PaperSignal). nat_eq n s.id ≡ false) ss
differ n [] h = tt
differ n (s ∷ ss) h = (ground arith, differ n ss (ground arith))

IsElsewhere-later :
    (day : ℕ) (x s : PaperSignal) (xs : List PaperSignal)
    → nat_eq x.id s.id ≡ false
    → IsElsewhere day xs s
    → IsElsewhere day (x ∷ xs) s
IsElsewhere-later day x s xs ne h other_day = ground (arith, h other_day)

All-IsElsewhere :
    (day : ℕ) (ss : List PaperSignal)
    → IsDistinct (map PaperSignal.id ss)
    → All (IsElsewhere day ss) ss
All-IsElsewhere day [] d = tt
All-IsElsewhere day (x ∷ xs) d = (
  λ other_day. rw other_day (ids_of_day_sub x.id day xs d.0),
  All-zip _ _ _ (λ s ne h. IsElsewhere-later day x s xs ne h) xs (differ x.id xs d.0)
      (All-IsElsewhere day xs d.1),
)

module _ (P : PaperSignal → Type 0) where
  All-insert_signal :
      (s : PaperSignal) (ss : List PaperSignal) → P s → All P ss → All P (insert_signal s ss)
  All-insert_signal s [] p h = (p, tt)
  All-insert_signal s (t ∷ ts) p h = elim (Bool-cases (signal_le s t)) [
    | inl e ↦ rw e (p, h)
    | inr e ↦ rw e (h.0, All-insert_signal s ts p h.1)
  ]

  All-sort_signals : (ss : List PaperSignal) → All P ss → All P (sort_signals ss)
  All-sort_signals [] h = tt
  All-sort_signals (s ∷ ss) h = All-insert_signal s (sort_signals ss) h.0 (All-sort_signals ss h.1)

  -- What holds of all the stored signals holds of the selected ones.
  All-selected :
      (store : Store) (symbol : Option String) (start stop : Option ℕ) (bound : ℤ)
      → All P store.signals
      → All P (selected store symbol start stop bound)
  unfolding load_candidate_signals
  All-selected store symbol start stop bound h =
      All-take P (bounded_limit bound) _
        (All-sort_signals _ (All-keep_if P (matches symbol start stop) store.signals h))

abbrev trades_on : ℕ → List PaperSignal → List Trade → ℕ
trades_on day ss ts = count_if (λ (t : Trade). contains t.signal_id (ids_of_day day ss)) ts

signals-recorded :
    (store : Store) (s : PaperSignal) (o : PaperSimulationResult)
    → (recorded store s o).signals ≡ store.signals
signals-recorded store s o = elim (Bool-cases (has_entry_attempt o)) [
  | inr e ↦ rw e refl
  | inl e ↦ rw e (elim (Bool-cases o.trade_created) [
    | inr f ↦ rw f refl
    | inl f ↦ rw f (elim (Bool-cases (has_exit o)) [ inl g ↦ rw g refl | inr g ↦ rw g refl ])
  ])
]

abbrev IsCapped : PaperConfig → ℕ → List PaperSignal → Store → Type 0
IsCapped config day ss store =
    (store.signals ≡ ss) × (trades_on day ss store.trades ≤ pos_part config.max_trades_per_day)

lt_room : (cap : ℤ) (n : ℕ) → pos n <ℤ cap → n + 1 ≤ pos_part cap
lt_room (pos m) n h = omega arith
lt_room (negsuc m) n h = omega arith

room_on :
    (store : Store) (config : PaperConfig) (s : PaperSignal) (day : ℕ) (ss : List PaperSignal)
    → pos (count_paper_trades_for_day store s.signal_time) <ℤ config.max_trades_per_day
    → store.signals ≡ ss
    → ist_date s.signal_time ≡ day
    → trades_on day ss store.trades + 1 ≤ pos_part config.max_trades_per_day
unfolding count_paper_trades_for_day
room_on store config s day ss room e on =
    subst (λ d. trades_on d ss store.trades + 1 ≤ pos_part config.max_trades_per_day) on
      (subst
        (λ l.
          trades_on (ist_date s.signal_time) l store.trades + 1
          ≤ pos_part config.max_trades_per_day)
        e (lt_room config.max_trades_per_day _ room))

module _ (day : ℕ) (ss : List PaperSignal) (ts : List Trade) (t : Trade) where
  one_more : trades_on day ss (ts ++ t ∷ []) ≤ trades_on day ss ts + 1
  one_more =
      ground (
        arith,
        count_if-append (λ (t : Trade). contains t.signal_id (ids_of_day day ss)) ts (t ∷ []),
      )

  no_more :
      contains t.signal_id (ids_of_day day ss) ≡ false
      → trades_on day ss (ts ++ t ∷ []) ≤ trades_on day ss ts
  no_more e =
      ground (
        arith,
        count_if-append (λ (t : Trade). contains t.signal_id (ids_of_day day ss)) ts (t ∷ []),
      )

capped_step :
    (config : PaperConfig) (day : ℕ) (ss : List PaperSignal) (store : Store) (s : PaperSignal)
    (o : PaperSimulationResult)
    → IsElsewhere day ss s
    → IsCapped config day ss store
    → RecordsOne store config s (recorded store s o) o
    → trades_on day ss (recorded store s o).trades ≤ pos_part config.max_trades_per_day
capped_step config day ss store s o q h one = elim (trades-recorded store s o) [
  | inl same_ ↦ rw same_ h.1
  | inr (t, added, id, sim, created) ↦
      rw added (elim (Bool-cases (nat_eq (ist_date s.signal_time) day)) [
        | inl on ↦
            let e = (nat_eq_iff (ist_date s.signal_time) day).0 on in
            let r = room_on store config s day ss (one.room created) h.0 e in
            omega (arith, one_more day ss store.trades t, r)
        | inr off_ ↦
            let none_ = subst (λ n. contains n (ids_of_day day ss) ≡ false) (sym id) (q off_) in
            omega (arith, no_more day ss store.trades t none_, h.1)
      ])
]

step :
    (config : PaperConfig) (day : ℕ) (ss : List PaperSignal) (store : Store) (s : PaperSignal)
    (after : Store) (o : PaperSimulationResult)
    → IsElsewhere day ss s
    → IsCapped config day ss store
    → RecordsOne store config s after o
    → IsCapped config day ss after
step config day ss store s after o q h one = subst (IsCapped config day ss) (sym one.as_recorded) (
  signals-recorded store s o ∙ h.0,
  capped_step config day ss store s o q h
      (record { as_recorded = refl; fresh = one.fresh; room = one.room }),
)

-- Where the stored signals have different ids, a day whose trades are within the configured cap is
-- within it after a run.
pub run_replay-cap :
    (store : Store) (config : PaperConfig) (symbol : Option String) (start stop : Option ℕ)
    (bound : ℤ) (after : Store) (outcomes : List PaperSimulationResult) (moment : ℕ)
    → run_replay store config symbol start stop bound ≡ replayed after outcomes
    → IsDistinct (map PaperSignal.id store.signals)
    → count_paper_trades_for_day store moment ≤ pos_part config.max_trades_per_day
    → count_paper_trades_for_day after moment ≤ pos_part config.max_trades_per_day
unfolding count_paper_trades_for_day
run_replay-cap store config symbol start stop bound after outcomes moment h d within =
    let day = ist_date moment in
    let kept =
      run_replay-keeps config stop (IsCapped config day store.signals)
        (IsElsewhere day store.signals)
        (λ st s mid o q p one. step config day store.signals st s mid o q p one) store symbol start
        bound after outcomes h
        (All-selected _ store symbol start stop bound (All-IsElsewhere day store.signals d))
        (refl, within) in
    subst (λ ss. trades_on day ss after.trades ≤ pos_part config.max_trades_per_day) (sym kept.0)
      kept.1
