-- ===== src/Common/Classes.antt =====
-- Equality tests as an interface, `in` on a list, and `list(dict.fromkeys(...))`.
use Prim.Native.Nat.{ℕ}
use Prim.Native.String.{String}
use mathlib.Core.Path.{◌≡◌, refl}
use mathlib.Core.Logic.{◌↔◌}
use mathlib.Core.Bool.{Bool, true, false, ◌||◌}
use mathlib.Core.List.{List, [], ◌∷◌, ◌++◌}
use native.Mathlib.Omega.{arith}
use text.Mathlib.Text.{◌==◌ as str_eq}
use text.Mathlib.TextEquality.{eq_iff}
use trader_ai.Common.Tests.{if◌then◌else◌, nat_eq, nat_eq_iff}

-- A type whose values the source compares by `==` and `in`.
pub record Comparable {ℓ} (A : Type ℓ) : Type ℓ where
  pub same : A → A → Bool
  pub same_iff : (x y : A) → (same x y ≡ true) ↔ (x ≡ y)

instance abbrev pub text_comparable : Comparable String
text_comparable = record { same = str_eq; same_iff = eq_iff }

instance abbrev pub number_comparable : Comparable ℕ
number_comparable = record { same = nat_eq; same_iff = nat_eq_iff }

module _ {ℓ} {A : Type ℓ} ⦃cmp : Comparable A⦄ where
  -- `a in xs`
  abbrev pub contains : A → List A → Bool
  contains a [] = false
  contains a (x ∷ xs) = cmp.same x a || contains a xs

  -- The loop over `seen` and `output`: the first occurrence of each value is kept, in order.
  abbrev pub unique_from : List A → List A → List A
  unique_from seen [] = []
  unique_from seen (x ∷ xs) =
      let skipped = unique_from seen xs in
      let kept = x ∷ unique_from (x ∷ seen) xs in if contains x seen then skipped else kept

  abbrev pub unique : List A → List A
  unique xs = unique_from [] xs

  pub contains-append :
      (a : A) (xs ys : List A) → contains a (xs ++ ys) ≡ (contains a xs || contains a ys)
  contains-append a [] ys = refl
  contains-append a (x ∷ xs) ys = ground (arith, contains-append a xs ys)

  -- No value occurs twice.
  abbrev pub IsDistinct : List A → Type 0
  IsDistinct [] = Unit
  IsDistinct (x ∷ xs) = (contains x xs ≡ false) × IsDistinct xs

  contains-unique_from :
      (a : A) (seen xs : List A)
      → contains a (unique_from seen xs) ≡ (if contains a seen then false else contains a xs)
  contains-unique_from a seen [] = ground arith
  contains-unique_from a seen (x ∷ xs) = ground (
    arith,
    contains-unique_from a seen xs,
    contains-unique_from a (x ∷ seen) xs,
    cmp.same_iff x a,
  )

  pub contains-unique : (a : A) (xs : List A) → contains a (unique xs) ≡ contains a xs
  contains-unique a xs = contains-unique_from a [] xs

  pub IsDistinct-snoc :
      (a : A) (xs : List A) → contains a xs ≡ false → IsDistinct xs → IsDistinct (xs ++ a ∷ [])
  IsDistinct-snoc a [] new d = (refl, tt)
  IsDistinct-snoc a (x ∷ xs) new d = (
    ground (arith, contains-append x xs (a ∷ []), cmp.same_iff x a, cmp.same_iff a x, d.0),
    IsDistinct-snoc a xs (ground arith) d.1,
  )
