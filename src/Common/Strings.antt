-- ===== src/Common/Strings.antt =====
-- Texts: lists of UTF-16 code units, as JavaScript has them, with a decided equality.
use Prim.Native.Nat.{ℕ}
use Prim.Native.Char.{code}
use Prim.Native.String.{String}
use mathlib.Core.Path.{◌≡◌}
use mathlib.Core.Logic.{◌≢◌}
use native.Mathlib.Omega.{arith}
use mathlib.Core.Bool.{Bool, true, false}
use mathlib.Core.Option.{Option, none, some}
use mathlib.Core.List.{List, [], ◌∷◌}
use native.Mathlib.Decide.{ℕ_discrete}

abbrev pub Text : Type 0
Text = List ℕ

-- A literal of the source; all of them are in the basic plane.
abbrev pub codes : String → Text
codes String.[] = []
codes (String.◌∷◌ c s) = code c ∷ codes s

unfoldable pub Text-discrete : Discrete Text
Text-discrete = hlevel ℕ_discrete

infix 50 ◌==◌
abbrev pub ◌==◌ : Text → Text → Bool
a == b = elim (Text-discrete a b) [ yes _ ↦ true | no _ ↦ false ]

-- A text where JavaScript finds it truthy: there, and not empty.
abbrev pub given : Option Text → Option Text
given none = none
given (some []) = none
given (some (c ∷ t)) = some (c ∷ t)

pub ==_yes : {a b : Text} → a ≡ b → (a == b) ≡ true
==_yes h = ground arith

pub not-== : {a b : Text} → a ≢ b → (a == b) ≡ false
not-== h = ground arith

pub eq_of_== : {a b : Text} → (a == b) ≡ true → a ≡ b
eq_of_== h = ground arith
