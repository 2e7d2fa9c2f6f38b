-- ===== src/Analysis/Sessions/Ranges.antt =====
-- The high and the low of the opening range.
use trader_ai.Common.{
  ◌/◌, ◌≤◌, ◌≡◌, refl, sym, ◌∙◌, subst, ◌⊎◌, inl, inr, Bool, true, Option, none, some, List, [],
  ◌∷◌, arith, Bool-cases, keep_if, last_of, All, Any, All-mono, Any-mono, All-kept, Any-kept, ℤ,
  ◌+ℤ◌, ◌≤ℤ◌, ◌<ℤ◌, ltb_ℤ, max_ℤ, min_ℤ, +ℤ_parts, -ℤ_parts, pos, minute_us, ist_date, ist_time,
}
use trader_ai.Paper.Schemas.{CompletedBar}
use trader_ai.Analysis.Sessions.{
  session_date, highest, lowest, high_low, in_opening_range, opening_range,
}

-- A bar of the newest day, in the first `range_minutes` minutes from 09:15 on the clock of India.
abbrev pub IsOpening : CompletedBar → ℤ → CompletedBar → Type 0
IsOpening newest range_minutes c =
    (ist_date c.started_at ≡ ist_date newest.started_at)
    × (555 ≤ ist_time c.started_at / minute_us)
    × (pos (ist_time c.started_at / minute_us) <ℤ pos 555 +ℤ range_minutes)

-- The least range that encloses the bars of a predicate, or no range where it has none.
abbrev pub IsExact : (CompletedBar → Type 0) → List CompletedBar → Option (ℤ × ℤ) → Type 0
IsExact P bars none = All (λ c. P c → ⊥) bars
IsExact P bars (some (hi, lo)) =
    All (λ c. P c → (c.high_price ≤ℤ hi) × (lo ≤ℤ c.low_price)) bars
    × Any (λ c. P c × (c.high_price ≡ hi)) bars
    × Any (λ c. P c × (c.low_price ≡ lo)) bars

max_bounds : (a b : ℤ) → (a ≤ℤ max_ℤ a b) × (b ≤ℤ max_ℤ a b)
max_bounds a b = ground arith

min_bounds : (a b : ℤ) → (min_ℤ a b ≤ℤ a) × (min_ℤ a b ≤ℤ b)
min_bounds a b = ground arith

max_either : (a b : ℤ) → (a ≡ max_ℤ a b) ⊎ (b ≡ max_ℤ a b)
max_either a b = elim (Bool-cases (ltb_ℤ a b)) [ inl e ↦ inr (rw e refl) | inr e ↦ inl (rw e refl) ]

min_either : (a b : ℤ) → (a ≡ min_ℤ a b) ⊎ (b ≡ min_ℤ a b)
min_either a b = elim (Bool-cases (ltb_ℤ b a)) [ inl e ↦ inr (rw e refl) | inr e ↦ inl (rw e refl) ]

encloses :
    (b : CompletedBar) (bs : List CompletedBar)
    → All
        (λ (c : CompletedBar). (c.high_price ≤ℤ highest b bs) × (lowest b bs ≤ℤ c.low_price))
        (b ∷ bs)
encloses b [] = ((omega arith, omega arith), tt)
encloses b (c ∷ cs) =
    let (up, up') = max_bounds b.high_price (highest c cs) in
    let (down, down') = min_bounds b.low_price (lowest c cs) in
    (
      (up, down),
      All-mono (c ∷ cs) (λ x h. (omega (arith, h.0, up'), omega (arith, h.1, down')))
          (encloses c cs),
    )

highest-attained :
    (b : CompletedBar) (bs : List CompletedBar)
    → Any (λ (c : CompletedBar). c.high_price ≡ highest b bs) (b ∷ bs)
highest-attained b [] = inl refl
highest-attained b (c ∷ cs) = elim (max_either b.high_price (highest c cs)) [
  | inl e ↦ inl e
  | inr e ↦ inr (Any-mono (c ∷ cs) (λ x h. h ∙ e) (highest-attained c cs))
]

lowest-attained :
    (b : CompletedBar) (bs : List CompletedBar)
    → Any (λ (c : CompletedBar). c.low_price ≡ lowest b bs) (b ∷ bs)
lowest-attained b [] = inl refl
lowest-attained b (c ∷ cs) = elim (min_either b.low_price (lowest c cs)) [
  | inl e ↦ inl e
  | inr e ↦ inr (Any-mono (c ∷ cs) (λ x h. h ∙ e) (lowest-attained c cs))
]

module _ (newest : CompletedBar) (m : ℤ) where
  abbrev in_range : CompletedBar → Bool
  in_range = in_opening_range (session_date newest) m

  opens : (c : CompletedBar) → in_range c ≡ true → IsOpening newest m c
  opens c h =
      let open_ = -ℤ_parts (pos (ist_time c.started_at / minute_us)) (pos 555) in
      let end_ = +ℤ_parts (pos 555) m in (ground arith, ground arith, ground arith)

  opening : (c : CompletedBar) → IsOpening newest m c → in_range c ≡ true
  opening c (day, from_, until) =
      let open_ = -ℤ_parts (pos (ist_time c.started_at / minute_us)) (pos 555) in
      let end_ = +ℤ_parts (pos 555) m in ground arith

  found :
      (P : CompletedBar → Type 0) (bars : List CompletedBar) (b : CompletedBar)
      (bs : List CompletedBar)
      → keep_if in_range bars ≡ b ∷ bs
      → Any P (b ∷ bs)
      → Any (λ c. IsOpening newest m c × P c) bars
  found P bars b bs e h =
      Any-mono bars (λ c h. (opens c h.0, h.1)) (Any-kept P in_range bars (subst (Any P) (sym e) h))

  high_low-IsExact :
      (bars kept : List CompletedBar)
      → keep_if in_range bars ≡ kept
      → IsExact (IsOpening newest m) bars (high_low kept)
  high_low-IsExact bars [] e =
      All-mono bars (λ c h o. h (opening c o))
        (All-kept (λ c. ⊥) in_range bars (subst (All (λ c. ⊥)) (sym e) tt))
  high_low-IsExact bars (b ∷ bs) e = (
    All-mono bars (λ c h o. h (opening c o))
        (All-kept _ in_range bars (
          subst
            (All
              (λ (c : CompletedBar). (c.high_price ≤ℤ highest b bs) × (lowest b bs ≤ℤ c.low_price)))
            (sym e) (encloses b bs))),
    found _ bars b bs e (highest-attained b bs),
    found _ bars b bs e (lowest-attained b bs),
  )

-- The opening range of bars with a newest one is the exact range of the bars of its day, on the
-- calendar of India, in the given minutes from 09:15: its high is at least, and its low at most,
-- that of each of them, and one of them attains each. There is no range only where no bar is one.
pub opening_range-IsExact :
    (bars : List CompletedBar) (range_minutes : ℤ) (newest : CompletedBar)
    → last_of bars ≡ some newest
    → IsExact (IsOpening newest range_minutes) bars (opening_range bars range_minutes)
unfolding opening_range
opening_range-IsExact bars range_minutes newest l =
    subst (IsExact (IsOpening newest range_minutes) bars)
      (let e : high_low (keep_if (in_opening_range (session_date newest) range_minutes) bars)
            ≡ opening_range bars range_minutes =
          rw (l, opening_range) refl in
        e)
      (high_low-IsExact newest range_minutes bars _ refl)
