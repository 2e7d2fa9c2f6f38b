-- ===== src/Common/Int.antt =====
-- Signed integers over the native numbers. A `Decimal` of the source is one of these, in units of
-- 10^-6, which is the quantum of the price columns and of the paper engine.
use Prim.Native.Nat.{ℕ, suc, ◌+◌, ◌-◌, ◌*◌, ◌/◌, ◌≤◌, ◌<◌}
use mathlib.Core.Path.{◌≡◌, ap}
use mathlib.Core.Bool.{Bool}
use native.Mathlib.Nat.{div-add-mod, mod-lt}
use native.Mathlib.Omega.{arith}
use trader_ai.Common.Tests.{ltb, leb, if◌then◌else◌}

-- `negsuc n` is -(n + 1).
pub data ℤ : Type 0 where
  pos : ℕ → ℤ
  negsuc : ℕ → ℤ

abbrev pub pos_part : ℤ → ℕ
pos_part (pos n) = n
pos_part (negsuc n) = 0

abbrev pub neg_part : ℤ → ℕ
neg_part (pos n) = 0
neg_part (negsuc n) = suc n

abbrev pub sub_ℕ : ℕ → ℕ → ℤ
sub_ℕ a b = if leb b a then pos (a - b) else negsuc (b - a - 1)

infixl 65 ◌+ℤ◌ ◌-ℤ◌
infixl 70 ◌*ℤ◌
infix 50 ◌≤ℤ◌ ◌<ℤ◌
unfoldable pub ◌+ℤ◌ : ℤ → ℤ → ℤ
a +ℤ b = sub_ℕ (pos_part a + pos_part b) (neg_part a + neg_part b)

unfoldable pub ◌-ℤ◌ : ℤ → ℤ → ℤ
a -ℤ b = sub_ℕ (pos_part a + neg_part b) (neg_part a + pos_part b)

unfoldable pub ◌*ℤ◌ : ℤ → ℤ → ℤ
a *ℤ b =
    sub_ℕ (pos_part a * pos_part b + neg_part a * neg_part b)
      (pos_part a * neg_part b + neg_part a * pos_part b)

abbrev pub ◌≤ℤ◌ : ℤ → ℤ → Type 0
a ≤ℤ b = pos_part a + neg_part b ≤ pos_part b + neg_part a

abbrev pub ◌<ℤ◌ : ℤ → ℤ → Type 0
a <ℤ b = pos_part a + neg_part b < pos_part b + neg_part a

abbrev pub ltb_ℤ : ℤ → ℤ → Bool
ltb_ℤ a b = ltb (pos_part a + neg_part b) (pos_part b + neg_part a)

abbrev pub leb_ℤ : ℤ → ℤ → Bool
leb_ℤ a b = leb (pos_part a + neg_part b) (pos_part b + neg_part a)

-- Python's `max(a, b)` and `min(a, b)`: the first argument on a tie.
abbrev pub max_ℤ : ℤ → ℤ → ℤ
max_ℤ a b = if ltb_ℤ a b then b else a

abbrev pub min_ℤ : ℤ → ℤ → ℤ
min_ℤ a b = if ltb_ℤ b a then b else a

pub +ℤ_parts :
    (a b : ℤ)
    → pos_part (a +ℤ b) + neg_part a + neg_part b ≡ neg_part (a +ℤ b) + pos_part a + pos_part b
unfolding ◌+ℤ◌
+ℤ_parts a b = ground arith

pub -ℤ_parts :
    (a b : ℤ)
    → pos_part (a -ℤ b) + neg_part a + pos_part b ≡ neg_part (a -ℤ b) + pos_part a + neg_part b
unfolding ◌-ℤ◌
-ℤ_parts a b = ground arith

pub eq_of_parts : (a b : ℤ) → pos_part a + neg_part b ≡ pos_part b + neg_part a → a ≡ b
eq_of_parts a b h = ground arith

pub ruleset int_laws = (arith, +ℤ_parts, -ℤ_parts, eq_of_parts)

-- `quantize(..., rounding=ROUND_HALF_UP)` of `n / d`: to the nearest integer, ties away from zero.
unfoldable pub quantize : ℤ → ℕ → ℤ
quantize (pos n) d = pos ((2 * n + d) / (2 * d))
quantize (negsuc n) d = sub_ℕ 0 ((2 * suc n + d) / (2 * d))

half_up :
    (n d : ℕ)
    → 0 < d
    → (2 * d * ((2 * n + d) / (2 * d)) ≤ 2 * n + d) × (2 * n < 2 * d * ((2 * n + d) / (2 * d)) + d)
half_up n d h =
    omega (arith, div-add-mod (2 * n + d) (2 * d), mod-lt (2 * n + d) {m = 2 * d} (omega arith))

-- The quantised value times `2 d` is within `d` of twice the value.
pub quantize_close :
    (x : ℤ) (d : ℕ)
    → 0 < d
    → (2 * d * pos_part (quantize x d) ≤ 2 * pos_part x + d)
      × (2 * pos_part x < 2 * d * pos_part (quantize x d) + d + 1)
      × (2 * d * neg_part (quantize x d) ≤ 2 * neg_part x + d)
      × (2 * neg_part x < 2 * d * neg_part (quantize x d) + d + 1)
unfolding quantize
quantize_close (pos n) d h = omega (arith, half_up n d h)
quantize_close (negsuc n) d h = ground (arith, half_up (suc n) d h)

pub *ℤ_parts :
    (a b : ℤ)
    → pos_part (a *ℤ b) + pos_part a * neg_part b + neg_part a * pos_part b
      ≡ neg_part (a *ℤ b) + pos_part a * pos_part b + neg_part a * neg_part b
unfolding ◌*ℤ◌
*ℤ_parts a b = ground arith

sub_opposite :
    (a b : ℤ) → (pos_part (b -ℤ a) ≡ neg_part (a -ℤ b)) × (neg_part (b -ℤ a) ≡ pos_part (a -ℤ b))
unfolding ◌-ℤ◌
sub_opposite a b = ground arith

-- `b - a` is the opposite of `a - b`, also as a factor.
pub sub_mul_cancel : (a b q : ℤ) → (a -ℤ b) *ℤ q +ℤ (b -ℤ a) *ℤ q ≡ pos 0
sub_mul_cancel a b q =
    let e = sub_opposite a b in
    eq_of_parts _ _ (
      omega (
        arith,
        +ℤ_parts ((a -ℤ b) *ℤ q) ((b -ℤ a) *ℤ q),
        *ℤ_parts (a -ℤ b) q,
        *ℤ_parts (b -ℤ a) q,
        ap (λ (t : ℕ). t * pos_part q) e.0,
        ap (λ (t : ℕ). t * neg_part q) e.0,
        ap (λ (t : ℕ). t * pos_part q) e.1,
        ap (λ (t : ℕ). t * neg_part q) e.1,
      ))

pub mul_positive : (a q : ℤ) → pos 0 <ℤ a → pos 1 ≤ℤ q → pos 0 <ℤ a *ℤ q
unfolding ◌*ℤ◌
mul_positive (pos n) (pos m) h k = grind arith
mul_positive (pos n) (negsuc m) h k = absurd (omega arith)
mul_positive (negsuc n) q h k = absurd (omega arith)
