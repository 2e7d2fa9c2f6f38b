-- ===== src/Broker/Login/Sample.antt =====
-- A stand-in for Fernet that puts a character in front of the text: a concrete value of the
-- parameter.
use Prim.Native.Nat.{ℕ}
use Prim.Native.String.{String, [], ◌∷◌}
use mathlib.Core.Path.{◌≡◌, refl}
use mathlib.Core.Bool.{false}
use mathlib.Core.Option.{Option, none, some}
use trader_ai.Common.{ap, inl, inr, arith, str_eq_iff, Bool-cases}
use trader_ai.Broker.Auth.{Fernet, is_blank}

abbrev front : String → String
front s = "k" ∷ s

abbrev tail : String → Option String
tail [] = none
tail (c ∷ s) = some s

abbrev pub sample : Fernet
sample = record { encrypt = λ n s. front s; decrypt = tail }

pub tail-front : (n : ℕ) (s : String) → sample.decrypt (sample.encrypt n s) ≡ some s
tail-front n s = refl

pub front-blank : (n : ℕ) (s : String) → is_blank (sample.encrypt n s) ≡ false
front-blank n s = elim (Bool-cases (is_blank (front s))) [
  | inr h ↦ h
  | inl h ↦ absurd (grind (arith, ap tail ((str_eq_iff (front s) "").0 h)))
]
