-- ===== src/Common/Lists.antt =====
-- Lists measured by native numbers, the comprehensions and `next` of the source, and predicates
-- on all the elements of a list.
use Prim.Native.Nat.{ℕ, zero, suc, ◌+◌, ◌≤◌}
use mathlib.Core.Path.{◌≡◌, refl, subst, ap}
use mathlib.Core.Bool.{Bool, true, false, ◌||◌}
use mathlib.Core.List.{List, [], ◌∷◌, ◌++◌}
use mathlib.Core.Option.{Option, none, some}
use native.Mathlib.Omega.{arith}
use trader_ai.Common.Tests.{if◌then◌else◌, Bool-cases, some_inj}
use mathlib.Core.Logic.{◌⊎◌, inl, inr}

module _ {ℓ} {A : Type ℓ} where
  abbrev pub length : List A → ℕ
  length [] = 0
  length (x ∷ xs) = suc (length xs)

  abbrev pub take : ℕ → List A → List A
  take zero xs = []
  take (suc n) [] = []
  take (suc n) (x ∷ xs) = x ∷ take n xs

  abbrev pub is_empty : List A → Bool
  is_empty [] = true
  is_empty (x ∷ xs) = false

  -- `[x for x in xs if p(x)]`
  abbrev pub keep_if : (A → Bool) → List A → List A
  keep_if p [] = []
  keep_if p (x ∷ xs) = let rest = keep_if p xs in if p x then x ∷ rest else rest

  -- `next((x for x in xs if p(x)), None)`
  abbrev pub find_first : (A → Bool) → List A → Option A
  find_first p [] = none
  find_first p (x ∷ xs) = let rest = find_first p xs in if p x then some x else rest

  -- `any(p(x) for x in xs)`
  abbrev pub any_of : (A → Bool) → List A → Bool
  any_of p [] = false
  any_of p (x ∷ xs) = p x || any_of p xs

  -- `xs[-1]`
  abbrev pub last_of : List A → Option A
  last_of [] = none
  last_of (x ∷ []) = some x
  last_of (x ∷ y ∷ ys) = last_of (y ∷ ys)

  -- `sum(1 for x in xs if p(x))`
  abbrev pub count_if : (A → Bool) → List A → ℕ
  count_if p [] = 0
  count_if p (x ∷ xs) = (if p x then 1 else 0) + count_if p xs

  pub length-append : (xs ys : List A) → length (xs ++ ys) ≡ length xs + length ys
  length-append [] ys = omega arith
  length-append (x ∷ xs) ys = omega (arith, length-append xs ys)

  pub length-take-le : (n : ℕ) (xs : List A) → length (take n xs) ≤ n
  length-take-le zero xs = omega arith
  length-take-le (suc n) [] = omega arith
  length-take-le (suc n) (x ∷ xs) = omega (arith, length-take-le n xs)

  pub count_if-append :
      (p : A → Bool) (xs ys : List A) → count_if p (xs ++ ys) ≡ count_if p xs + count_if p ys
  count_if-append p [] ys = omega arith
  count_if-append p (x ∷ xs) ys = omega (arith, count_if-append p xs ys)

module _ {ℓ κ} {A : Type ℓ} where
  abbrev pub All : (A → Type κ) → List A → Type κ
  All P [] = Unit
  All P (x ∷ xs) = P x × All P xs

  pub All-keep_if : (P : A → Type κ) (p : A → Bool) (xs : List A) → All P xs → All P (keep_if p xs)
  All-keep_if P p [] h = tt
  All-keep_if P p (x ∷ xs) h = elim (Bool-cases (p x)) [
    | inl yes_ ↦ rw yes_ (h.0, All-keep_if P p xs h.1)
    | inr no_ ↦ rw no_ (All-keep_if P p xs h.1)
  ]

  pub All-append : (P : A → Type κ) (xs ys : List A) → All P xs → All P ys → All P (xs ++ ys)
  All-append P [] ys hx hy = hy
  All-append P (x ∷ xs) ys hx hy = (hx.0, All-append P xs ys hx.1 hy)

module _ {ℓ} {A : Type ℓ} where
  pub find_first-holds :
      (p : A → Bool) (xs : List A) (x : A) → find_first p xs ≡ some x → p x ≡ true
  find_first-holds p [] x h = cc
  find_first-holds p (y ∷ ys) x h = elim (Bool-cases (p y)) [
    | inl r ↦ subst (λ z. p z ≡ true) (some_inj (rw r at h)) r
    | inr r ↦ find_first-holds p ys x (rw r at h)
  ]

  pub find_first-append :
      (p : A → Bool) (xs ys : List A) (x : A)
      → find_first p xs ≡ some x
      → find_first p (xs ++ ys) ≡ some x
  find_first-append p [] ys x h = cc
  find_first-append p (z ∷ zs) ys x h = elim (Bool-cases (p z)) [
    | inl e ↦ rw e (rw e at h)
    | inr e ↦ rw e (find_first-append p zs ys x (rw e at h))
  ]

  pub keep_if-append :
      (p : A → Bool) (xs ys : List A) → keep_if p (xs ++ ys) ≡ keep_if p xs ++ keep_if p ys
  keep_if-append p [] ys = refl
  keep_if-append p (x ∷ xs) ys = elim (Bool-cases (p x)) [
    | inl e ↦ rw e (ap (◌∷◌ x) (keep_if-append p xs ys))
    | inr e ↦ rw e (keep_if-append p xs ys)
  ]

  pub keep_if_comm :
      (p q : A → Bool) (xs : List A) → keep_if p (keep_if q xs) ≡ keep_if q (keep_if p xs)
  keep_if_comm p q [] = refl
  keep_if_comm p q (x ∷ xs) = ground (arith, keep_if_comm p q xs)

  pub keep_if-drop :
      (p : A → Bool) (xs ys : List A) (x : A)
      → p x ≡ false
      → keep_if p (xs ++ x ∷ ys) ≡ keep_if p (xs ++ ys)
  keep_if-drop p [] ys x h = rw h refl
  keep_if-drop p (y ∷ xs) ys x h = elim (Bool-cases (p y)) [
    | inl e ↦ rw e (ap (◌∷◌ y) (keep_if-drop p xs ys x h))
    | inr e ↦ rw e (keep_if-drop p xs ys x h)
  ]

module _ {ℓ κ} {A : Type ℓ} where
  pub All-take : (P : A → Type κ) (n : ℕ) (xs : List A) → All P xs → All P (take n xs)
  All-take P zero xs h = tt
  All-take P (suc n) [] h = tt
  All-take P (suc n) (x ∷ xs) h = (h.0, All-take P n xs h.1)

  pub All-zip :
      (P Q R : A → Type κ)
      → ((x : A) → P x → Q x → R x)
      → (xs : List A) → All P xs
      → All Q xs
      → All R xs
  All-zip P Q R f [] p q = tt
  All-zip P Q R f (x ∷ xs) p q = (f x p.0 q.0, All-zip P Q R f xs p.1 q.1)

module _ {ℓ} {A : Type ℓ} where
  -- A predicate holds of an element.
  abbrev pub Any : (A → Type 0) → List A → Type 0
  Any P [] = ⊥
  Any P (x ∷ xs) = P x ⊎ Any P xs

  pub All-mono : {P Q : A → Type 0} (xs : List A) → ((x : A) → P x → Q x) → All P xs → All Q xs
  All-mono [] f h = tt
  All-mono (x ∷ xs) f h = (f x h.0, All-mono xs f h.1)

  pub Any-mono : {P Q : A → Type 0} (xs : List A) → ((x : A) → P x → Q x) → Any P xs → Any Q xs
  Any-mono [] f h = absurd h
  Any-mono (x ∷ xs) f (inl h) = inl (f x h)
  Any-mono (x ∷ xs) f (inr h) = inr (Any-mono xs f h)

  pub All-kept :
      (P : A → Type 0) (p : A → Bool) (xs : List A)
      → All P (keep_if p xs)
      → All (λ x. p x ≡ true → P x) xs
  All-kept P p [] h = tt
  All-kept P p (x ∷ xs) h = elim (Bool-cases (p x)) [
    | inl e ↦ let g = rw e at h in ((λ q. g.0), All-kept P p xs g.1)
    | inr e ↦ ((λ q. cc), All-kept P p xs (rw e at h))
  ]

  pub Any-kept :
      (P : A → Type 0) (p : A → Bool) (xs : List A)
      → Any P (keep_if p xs)
      → Any (λ x. (p x ≡ true) × P x) xs
  Any-kept P p [] h = absurd h
  Any-kept P p (x ∷ xs) h = elim (Bool-cases (p x)) [
    | inl e ↦ elim (rw e at h) [ inl g ↦ inl (e, g) | inr g ↦ inr (Any-kept P p xs g) ]
    | inr e ↦ inr (Any-kept P p xs (rw e at h))
  ]
