-- ===== src/Common/Maps.antt =====
-- A Python dict with integer keys, in insertion order. A dict holds a key once, so `erase` may
-- drop every entry of its key.
use Prim.Native.Nat.{ℕ}
use mathlib.Core.Path.{◌≡◌, refl}
use mathlib.Core.Option.{Option, none, some}
use mathlib.Core.List.{List, [], ◌∷◌}
use native.Mathlib.Omega.{arith}
use trader_ai.Common.Tests.{if◌then◌else◌, nat_eq}

abbrev pub Dict {ℓ} : Type ℓ → Type ℓ
Dict V = List (ℕ × V)

module _ {ℓ} {V : Type ℓ} where
  -- `d.get(k)`
  unfoldable pub lookup : ℕ → Dict V → Option V
  lookup k [] = none
  lookup k ((j, v) ∷ d) = if nat_eq j k then some v else lookup k d

  -- `d[k] = v`
  unfoldable pub insert : ℕ → V → Dict V → Dict V
  insert k v [] = (k, v) ∷ []
  insert k v ((j, w) ∷ d) = if nat_eq j k then (k, v) ∷ d else (j, w) ∷ insert k v d

  -- `del d[k]`
  unfoldable pub erase : ℕ → Dict V → Dict V
  erase k [] = []
  erase k ((j, w) ∷ d) = let rest = erase k d in if nat_eq j k then rest else (j, w) ∷ rest

  pub lookup-insert :
      (j k : ℕ) (v : V) (d : Dict V)
      → lookup j (insert k v d) ≡ (if nat_eq k j then some v else lookup j d)
  unfolding lookup insert
  lookup-insert j k v [] = refl
  lookup-insert j k v ((i, w) ∷ d) = ground (arith, lookup-insert j k v d)

  pub lookup-erase :
      (j k : ℕ) (d : Dict V) → lookup j (erase k d) ≡ (if nat_eq k j then none else lookup j d)
  unfolding lookup erase
  lookup-erase j k [] = ground arith
  lookup-erase j k ((i, w) ∷ d) = ground (arith, lookup-erase j k d)

  -- No key has two entries.
  unfoldable pub IsKeyed : Dict V → Type ℓ
  IsKeyed [] = Unit
  IsKeyed ((k, v) ∷ d) = (lookup k d ≡ none) × IsKeyed d

  pub insert-IsKeyed : (k : ℕ) (v : V) (d : Dict V) → IsKeyed d → IsKeyed (insert k v d)
  unfolding IsKeyed lookup insert
  insert-IsKeyed k v [] h = (refl, tt)
  insert-IsKeyed k v ((i, w) ∷ d) h =
      ground (arith, insert-IsKeyed k v d h.1, lookup-insert i k v d)

  pub erase-IsKeyed : (k : ℕ) (d : Dict V) → IsKeyed d → IsKeyed (erase k d)
  unfolding IsKeyed lookup erase
  erase-IsKeyed k [] h = tt
  erase-IsKeyed k ((i, w) ∷ d) h = ground (arith, erase-IsKeyed k d h.1, lookup-erase i k d)

pub lookup-empty {ℓ} : {V : Type ℓ} (k : ℕ) → lookup {V = V} k [] ≡ none
unfolding lookup
lookup-empty k = refl

pub ruleset dict_laws = (lookup-insert, lookup-erase, lookup-empty)
