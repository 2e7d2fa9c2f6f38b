-- ===== src/Paper/Service/Trades.antt =====
-- The loop of run_replay in backend/app/paper/service.py: the journal and the trades it leaves.
use trader_ai.Common.{
  ℕ, ◌+◌, String, ◌≡◌, refl, sym, ap, ◌∙◌, subst, ◌⊎◌, inl, inr, Bool, true, false, ◌&&◌, Option,
  none, some, List, [], ◌∷◌, ◌++◌, map, arith, nat_eq, if◌then◌else◌, Bool-cases, length, any_of,
  All, All-append, text_comparable, number_comparable, contains, IsDistinct, IsDistinct-snoc, ℤ,
}
use mathlib.Core.List.{append-nil}
use trader_ai.Paper.Schemas.{PaperConfig, PaperSignal, PaperSimulationResult, paper}
use trader_ai.Paper.Repository.{
  Trade, JournalEntry, Store, load_candidate_signals, paper_trade_exists, has_entry_attempt,
  entry_order, place, has_exit, trade_of, record_trade, record_attempt, journal_entry,
}
use trader_ai.Paper.Service.Keeps.{recorded, RecordsOne, replay_signal-RecordsOne}
use trader_ai.Paper.Service.{
  replay_error, replay_signal, replay_signals, finish, bounded_limit, run_allowed, run_replay,
  refused, raised, replayed,
}

abbrev pub payloads : Store → List PaperSimulationResult
payloads store = map JournalEntry.payload store.journal

-- What holds of a loop over the signals whose body keeps `P`.
pub record Replays (store : Store) (signals : List PaperSignal) (after : Store)
    (outcomes : List PaperSimulationResult) : Type 0 where
  pub counted : length outcomes ≡ length signals
  pub journaled : payloads after ≡ payloads store ++ outcomes

map-append :
    (xs ys : List JournalEntry)
    → map JournalEntry.payload (xs ++ ys)
      ≡ map JournalEntry.payload xs ++ map JournalEntry.payload ys
map-append [] ys = refl
map-append (x ∷ xs) ys = ap (◌∷◌ x.payload) (map-append xs ys)

append-one :
    (xs ys : List PaperSimulationResult) (y : PaperSimulationResult)
    → (xs ++ y ∷ []) ++ ys ≡ xs ++ y ∷ ys
append-one [] ys y = refl
append-one (x ∷ xs) ys y = ap (◌∷◌ x) (append-one xs ys y)

journal-record_attempt :
    (store : Store) (s : PaperSignal) (o : PaperSimulationResult)
    → (record_attempt s o store).journal ≡ store.journal
journal-record_attempt store s o = elim (Bool-cases (has_entry_attempt o)) [
  | inr e ↦ rw e refl
  | inl e ↦ rw e (elim (Bool-cases o.trade_created) [
    | inr f ↦ rw f refl
    | inl f ↦ rw f (elim (Bool-cases (has_exit o)) [ inl g ↦ rw g refl | inr g ↦ rw g refl ])
  ])
]

payloads-recorded :
    (store : Store) (s : PaperSignal) (o : PaperSimulationResult)
    → payloads (recorded store s o) ≡ payloads store ++ o ∷ []
payloads-recorded store s o =
    rw (journal-record_attempt store s o) (map-append store.journal (journal_entry s o ∷ []))

replay_signals-cons :
    (store : Store) (config : PaperConfig) (stop : Option ℕ) (s : PaperSignal)
    (ss : List PaperSignal) (mid after : Store) (o : PaperSimulationResult)
    (os : List PaperSimulationResult)
    → replay_signal store config stop s ≡ some (mid, o)
    → replay_signals mid config stop ss ≡ some (after, os)
    → replay_signals store config stop (s ∷ ss) ≡ some (after, o ∷ os)
unfolding replay_signals
replay_signals-cons store config stop s ss mid after o os ran rest =
    rw (ran, replay_signals) (rw rest refl)

module _ (config : PaperConfig) (stop : Option ℕ) (P : Store → Type 0) (Q : PaperSignal → Type 0)
    (step : (store : Store) (signal : PaperSignal) (after : Store) (outcome : PaperSimulationResult)
      → Q signal
      → P store
      → RecordsOne store config signal after outcome
      → P after) where
  -- The loop returns, and what its body keeps it keeps.
  pub replay_signals-keeps :
      (signals : List PaperSignal) (store : Store)
      → All Q signals
      → P store
      → (after : Store) × (outcomes : List PaperSimulationResult) × (replay_signals store config
            stop signals
          ≡ some (after, outcomes))
        × Replays store signals after outcomes
        × P after
  unfolding replay_signals
  replay_signals-keeps [] store q p =
      (store, [], refl, record { counted = refl; journaled = sym (append-nil _) }, p)
  replay_signals-keeps (s ∷ ss) store q p =
      let (mid, o, ran, one) = replay_signal-RecordsOne store config stop s in
      let (after, os, rest, all_, p') =
        replay_signals-keeps ss mid q.1 (step store s mid o q.0 p one) in
      (
        after,
        o ∷ os,
        replay_signals-cons store config stop s ss mid after o os ran rest,
        record {
          counted = omega (arith, all_.counted);
          journaled =
              all_.journaled
              ∙ ap (λ j. j ++ os) (ap payloads one.as_recorded ∙ payloads-recorded store s o)
              ∙ append-one (payloads store) os o;
        },
        p',
      )

trades-record_trade :
    (store : Store) (s : PaperSignal) (o : PaperSimulationResult) (n : ℕ)
    → (x : Option ℕ) × ((record_trade s o n store).trades
        ≡ store.trades ++ trade_of (length store.trades + 1) s o n x ∷ [])
trades-record_trade store s o n = elim (Bool-cases (has_exit o)) [
  | inl g ↦ (some (length store.orders + 1), rw g refl)
  | inr g ↦ (none, rw g refl)
]

if-yes : (b : Bool) (x y : Store) → b ≡ true → (if b then x else y) ≡ x
if-yes b x y e = rw e refl

-- What recording an outcome does to the trades.
pub trades-recorded :
    (store : Store) (s : PaperSignal) (o : PaperSimulationResult)
    → ((recorded store s o).trades ≡ store.trades)
      ⊎ ((t : Trade) × ((recorded store s o).trades ≡ store.trades ++ t ∷ [])
          × (t.signal_id ≡ s.id)
          × (t.simulated ≡ true)
          × (o.trade_created ≡ true))
trades-recorded store s o = elim (Bool-cases (has_entry_attempt o)) [
  | inr e ↦ inl (rw e refl)
  | inl e ↦ elim (Bool-cases o.trade_created) [
    | inr f ↦ inl (rw e (rw f refl))
    | inl f ↦
        let n = length store.orders + 1 in
        let (x, added) = trades-record_trade (place (entry_order n s o) o store) s o n in
        let mid = place (entry_order n s o) o store in
        let whole = record_trade s o n mid in
        inr (
          trade_of (length store.trades + 1) s o n x,
          ap Store.trades
                (if-yes (has_entry_attempt o) _ store e ∙ if-yes o.trade_created whole mid f)
              ∙ added,
          refl,
          refl,
          f,
        )
  ]
]

-- Every trade is simulated, and no two are of one signal.
abbrev pub IsSingle : Store → Type 0
IsSingle store =
    All (λ (t : Trade). t.simulated ≡ true) store.trades
    × IsDistinct (map Trade.signal_id store.trades)

exists_contains :
    (id : ℕ) (ts : List Trade)
    → All (λ (t : Trade). t.simulated ≡ true) ts
    → any_of (λ (t : Trade). nat_eq t.signal_id id && t.simulated) ts
      ≡ contains id (map Trade.signal_id ts)
exists_contains id [] h = refl
exists_contains id (t ∷ ts) h = ground (arith, exists_contains id ts h.1, h.0)

map-snoc :
    (ts : List Trade) (t : Trade)
    → map Trade.signal_id (ts ++ t ∷ []) ≡ map Trade.signal_id ts ++ t.signal_id ∷ []
map-snoc [] t = refl
map-snoc (x ∷ xs) t = ap (◌∷◌ x.signal_id) (map-snoc xs t)

new_id :
    (store : Store) (id : ℕ)
    → IsSingle store
    → paper_trade_exists store id ≡ false
    → contains id (map Trade.signal_id store.trades) ≡ false
unfolding paper_trade_exists
new_id store id h new = sym (exists_contains id store.trades h.0) ∙ new

single_snoc :
    (ts : List Trade) (t : Trade)
    → t.simulated ≡ true
    → contains t.signal_id (map Trade.signal_id ts) ≡ false
    → All (λ (t : Trade). t.simulated ≡ true) ts
    → IsDistinct (map Trade.signal_id ts)
    → All (λ (t : Trade). t.simulated ≡ true) (ts ++ t ∷ [])
      × IsDistinct (map Trade.signal_id (ts ++ t ∷ []))
single_snoc ts t sim new all_ d = (
  All-append _ ts (t ∷ []) all_ (sim, tt),
  rw (map-snoc ts t) (IsDistinct-snoc t.signal_id (map Trade.signal_id ts) new d),
)

pub replayed_inj :
    (a b : Store) (xs ys : List PaperSimulationResult)
    → replayed a xs ≡ replayed b ys
    → (a ≡ b) × (xs ≡ ys)
replayed_inj a b xs ys h = (
  ap (λ r. elim r [ replayed s os ↦ s | raised ↦ a | refused e ↦ a ]) h,
  ap (λ r. elim r [ replayed s os ↦ os | raised ↦ xs | refused e ↦ xs ]) h,
)

-- The signals that a call replays.
abbrev pub selected : Store → Option String → Option ℕ → Option ℕ → ℤ → List PaperSignal
selected store symbol start stop bound =
    load_candidate_signals store symbol start stop (bounded_limit bound)

pub replay_error-none :
    (config : PaperConfig)
    → config.mode ≡ paper
    → config.enabled ≡ true
    → replay_error config ≡ none
unfolding replay_error
replay_error-none config m e = rw m (rw e refl)

pub allowed_run :
    (store : Store) (config : PaperConfig) (symbol : Option String) (start stop : Option ℕ)
    (bound : ℤ) (after : Store) (outcomes : List PaperSimulationResult)
    → replay_error config ≡ none
    → replay_signals store config stop (selected store symbol start stop bound)
      ≡ some (after, outcomes)
    → run_replay store config symbol start stop bound ≡ replayed after outcomes
unfolding run_replay
allowed_run store config symbol start stop bound after outcomes ok ran =
    ap (λ e. run_allowed e store config symbol start stop bound) ok ∙ ap finish ran

pub IsSingle-step :
    (config : PaperConfig) (store : Store) (s : PaperSignal) (after : Store)
    (o : PaperSimulationResult)
    → IsSingle store
    → RecordsOne store config s after o
    → IsSingle after
IsSingle-step config store s after o h one =
    subst IsSingle (sym one.as_recorded) (elim (trades-recorded store s o) [
      | inl same_ ↦ rw same_ h
      | inr (t, added, id, sim, created) ↦ rw added (
          single_snoc store.trades t sim
            (subst (λ n. contains n (map Trade.signal_id store.trades) ≡ false) (sym id)
              (new_id store s.id h (one.fresh created)))
            h.0 h.1)
    ])
