-- ===== src/Base/Bytes.antt =====
-- A Go string or byte slice: the list of its bytes.
use Prim.Native.Char.{code}
use Prim.Native.Nat.{ℕ}
use Prim.Native.String.{String}
use mathlib.Core.Bool.{Bool, true, false}
use mathlib.Core.List.{List, [], ◌∷◌}
use mathlib.Core.Logic.{◌↔◌, ite}
use mathlib.Core.Path.{◌≡◌, refl, ap₂}
use native.Mathlib.Decide.{ℕ_discrete}
use native.Mathlib.Omega.{arith}

abbrev pub Text : Type 0
Text = List ℕ

-- A literal of the source. Every literal of the program is ASCII.
abbrev pub bytes : String → Text
bytes String.[] = []
bytes (String.◌∷◌ c s) = code c ∷ bytes s

unfoldable pub Text_discrete : Discrete Text
unfolding ℕ_discrete
Text_discrete [] [] = yes refl
Text_discrete [] (b ∷ t) = no (λ p. cc)
Text_discrete (a ∷ s) [] = no (λ p. cc)
Text_discrete (a ∷ s) (b ∷ t) =
    let tails = Text_discrete s t in
    elim (ℕ_discrete a b) [
      | yes p ↦ elim tails [ yes q ↦ yes (ap₂ ◌∷◌ p q) | no n ↦ no (λ e. n (cc)) ]
      | no n ↦ no (λ e. n (cc))
    ]

-- Go's `==` on strings.
infix 50 ◌==◌
abbrev pub ◌==◌ : Text → Text → Bool
a == b = ite (Text_discrete a b) true false

abbrev pub contains : List Text → Text → Bool
contains [] t = false
contains (s ∷ ss) t = let rest = contains ss t in ite (Text_discrete s t) true rest

-- No text occurs twice.
abbrev pub IsDistinct : List Text → Type 0
IsDistinct [] = Unit
IsDistinct (e ∷ es) = (contains es e ≡ false) × IsDistinct es

-- `len(s) == 0`
abbrev pub is_empty : Text → Bool
is_empty [] = true
is_empty (c ∷ s) = false

pub ==-refl : (t : Text) → (t == t) ≡ true
==-refl t = ground arith

pub eq_iff : (s t : Text) → ((s == t) ≡ true) ↔ (s ≡ t)
eq_iff s t = ground arith
