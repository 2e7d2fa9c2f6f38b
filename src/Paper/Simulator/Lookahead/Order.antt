-- ===== src/Paper/Simulator/Lookahead/Order.antt =====
-- Sorting candles by their times, and filters over sorted lists.
use trader_ai.Common.{
  ℕ, ◌≤◌, ◌<◌, ◌≡◌, refl, ap, inl, inr, Bool, true, false, not, List, [], ◌∷◌, ◌++◌, arith, leb,
  if◌then◌else◌, Bool-cases, keep_if, All, All-keep_if,
}
use trader_ai.Paper.Schemas.{CompletedBar}
use trader_ai.Paper.Simulator.{insert_bar, sort_bars}

abbrev pub IsSorted : List CompletedBar → Type 0
IsSorted [] = Unit
IsSorted (c ∷ cs) = All (λ (d : CompletedBar). c.started_at ≤ d.started_at) cs × IsSorted cs

All-le_trans :
    (a b : ℕ) (cs : List CompletedBar)
    → a ≤ b
    → All (λ (d : CompletedBar). b ≤ d.started_at) cs
    → All (λ (d : CompletedBar). a ≤ d.started_at) cs
All-le_trans a b [] h all = tt
All-le_trans a b (c ∷ cs) h all = (omega (arith, all.0), All-le_trans a b cs h all.1)

All-insert_bar :
    (P : CompletedBar → Type 0) (c : CompletedBar) (cs : List CompletedBar)
    → P c
    → All P cs
    → All P (insert_bar c cs)
All-insert_bar P c [] p all = (p, tt)
All-insert_bar P c (d ∷ ds) p all = elim (Bool-cases (leb c.started_at d.started_at)) [
  | inl e ↦ rw e (p, all)
  | inr e ↦ rw e (all.0, All-insert_bar P c ds p all.1)
]

insert_bar-IsSorted :
    (c : CompletedBar) (cs : List CompletedBar) → IsSorted cs → IsSorted (insert_bar c cs)
insert_bar-IsSorted c [] h = (tt, tt)
insert_bar-IsSorted c (d ∷ ds) h = elim (Bool-cases (leb c.started_at d.started_at)) [
  | inl e ↦ rw e ((ground arith, All-le_trans c.started_at d.started_at ds (ground arith) h.0), h)
  | inr e ↦ rw e (
    All-insert_bar (λ (x : CompletedBar). d.started_at ≤ x.started_at) c ds (ground arith) h.0,
    insert_bar-IsSorted c ds h.1,
  )
]

pub sort_bars-IsSorted : (cs : List CompletedBar) → IsSorted (sort_bars cs)
sort_bars-IsSorted [] = tt
sort_bars-IsSorted (c ∷ cs) = insert_bar-IsSorted c (sort_bars cs) (sort_bars-IsSorted cs)

pub keep_if-IsSorted :
    (p : CompletedBar → Bool) (cs : List CompletedBar) → IsSorted cs → IsSorted (keep_if p cs)
keep_if-IsSorted p [] h = tt
keep_if-IsSorted p (c ∷ cs) h = elim (Bool-cases (p c)) [
  | inl e ↦ rw e (
    All-keep_if (λ (d : CompletedBar). c.started_at ≤ d.started_at) p cs h.0,
    keep_if-IsSorted p cs h.1,
  )
  | inr e ↦ rw e (keep_if-IsSorted p cs h.1)
]

insert_bar_first :
    (c : CompletedBar) (cs : List CompletedBar)
    → All (λ (d : CompletedBar). c.started_at ≤ d.started_at) cs
    → insert_bar c cs ≡ c ∷ cs
insert_bar_first c [] h = refl
insert_bar_first c (d ∷ ds) h =
    rw (let e : leb c.started_at d.started_at ≡ true = ground (arith, h.0) in e)

keep_if-insert_bar :
    (p : CompletedBar → Bool) (c : CompletedBar) (cs : List CompletedBar)
    → IsSorted cs
    → keep_if p (insert_bar c cs) ≡ (if p c then insert_bar c (keep_if p cs) else keep_if p cs)
keep_if-insert_bar p c [] h = refl
keep_if-insert_bar p c (d ∷ ds) h = elim (Bool-cases (leb c.started_at d.started_at)) [
  | inl e ↦
      let below = All-le_trans c.started_at d.started_at ds (ground arith) h.0 in
      let kept =
        All-keep_if (λ (x : CompletedBar). c.started_at ≤ x.started_at) p (d ∷ ds)
          (ground arith, below) in
      rw (e, insert_bar_first c (keep_if p (d ∷ ds)) kept)
  | inr e ↦ elim (Bool-cases (p d)) [
    | inl q ↦ elim (Bool-cases (p c)) [
      | inl r ↦ rw (e, q, r, e) (ap (◌∷◌ d) (rw r at (keep_if-insert_bar p c ds h.1)))
      | inr r ↦ rw (e, q, r) (ap (◌∷◌ d) (rw r at (keep_if-insert_bar p c ds h.1)))
    ]
    | inr q ↦ rw (e, q) (keep_if-insert_bar p c ds h.1)
  ]
]

pub keep_if-sort_bars :
    (p : CompletedBar → Bool) (cs : List CompletedBar)
    → keep_if p (sort_bars cs) ≡ sort_bars (keep_if p cs)
keep_if-sort_bars p [] = refl
keep_if-sort_bars p (c ∷ cs) = elim (Bool-cases (p c)) [
  | inl e ↦
      rw (keep_if-insert_bar p c (sort_bars cs) (sort_bars-IsSorted cs), e, keep_if-sort_bars p cs)
  | inr e ↦
      rw (keep_if-insert_bar p c (sort_bars cs) (sort_bars-IsSorted cs), e, keep_if-sort_bars p cs)
]

late_only :
    (u : ℕ) (cs : List CompletedBar)
    → All (λ (d : CompletedBar). u < d.started_at) cs
    → (keep_if (λ (c : CompletedBar). leb c.started_at u) cs ≡ [])
      × (keep_if (λ (c : CompletedBar). not (leb c.started_at u)) cs ≡ cs)
late_only u [] h = (refl, refl)
late_only u (c ∷ cs) h =
    let late : leb c.started_at u ≡ false = ground (arith, h.0) in
    let rest = late_only u cs h.1 in rw late (rest.0, ap (◌∷◌ c) rest.1)

All-lt :
    (u a : ℕ) (cs : List CompletedBar)
    → u < a
    → All (λ (d : CompletedBar). a ≤ d.started_at) cs
    → All (λ (d : CompletedBar). u < d.started_at) cs
All-lt u a [] h all = tt
All-lt u a (c ∷ cs) h all = (omega (arith, all.0), All-lt u a cs h all.1)

-- A sorted list is its early part followed by its late part.
pub sorted_split :
    (u : ℕ) (cs : List CompletedBar)
    → IsSorted cs
    → cs
      ≡ keep_if (λ (c : CompletedBar). leb c.started_at u) cs
        ++ keep_if (λ (c : CompletedBar). not (leb c.started_at u)) cs
sorted_split u [] h = refl
sorted_split u (c ∷ cs) h = elim (Bool-cases (leb c.started_at u)) [
  | inl e ↦ rw e (ap (◌∷◌ c) (sorted_split u cs h.1))
  | inr e ↦
      let rest = late_only u cs (All-lt u c.started_at cs (ground arith) h.0) in
      rw (e, rest.0, rest.1)
]
