-- ===== src/Base/Strings.antt =====
-- The parts of Go's strings and strconv that the program uses.
use Prim.Native.Nat.{ℕ, zero, suc, ◌+◌, ◌-◌, ◌*◌, ◌^◌}
use mathlib.Core.Bool.{Bool, true, false, ◌&&◌, ◌||◌}
use mathlib.Core.List.{List, [], ◌∷◌, reverse}
use mathlib.Core.Option.{Option, none, some}
use blindvault.Base.Bytes.{Text, bytes, contains}
use blindvault.Base.Int.{ℤ, pos, negsuc}
use blindvault.Base.Logic.{ltb, leb, nat_eq, if◌then◌else◌}

-- ASCII space; the other Unicode spaces are not modelled
abbrev pub is_space : ℕ → Bool
is_space c = nat_eq c 32 || (leb 9 c && leb c 13)

trim_left : Text → Text
trim_left [] = []
trim_left (c ∷ s) = let rest = trim_left s in if is_space c then rest else c ∷ s

-- strings.TrimSpace
unfoldable pub trim_space : Text → Text
unfolding trim_left
trim_space s = reverse (trim_left (reverse (trim_left s)))

-- the piece in front of the first separator, and the pieces behind it
prepend : ℕ → List Text → List Text
prepend c [] = (c ∷ []) ∷ []
prepend c (piece ∷ pieces) = (c ∷ piece) ∷ pieces

-- strings.Split at a separator of one byte
unfoldable pub split : ℕ → Text → List Text
unfolding prepend
split sep [] = [] ∷ []
split sep (c ∷ s) = let rest = split sep s in if nat_eq c sep then [] ∷ rest else prepend c rest

digits_onto : ℕ → Text → Option ℕ
digits_onto n [] = some n
digits_onto n (c ∷ s) =
    let rest = digits_onto (n * 10 + (c - b'0')) s in
    if leb b'0' c && leb c b'9' then rest else none

-- one digit at least
magnitude : Text → Option ℕ
magnitude [] = none
magnitude (c ∷ s) = digits_onto 0 (c ∷ s)

to_positive : Option ℕ → Option ℤ
to_positive none = none
to_positive (some n) = if ltb n (2 ^ 63) then some (pos n) else none

to_negative : Option ℕ → Option ℤ
to_negative none = none
to_negative (some zero) = some (pos 0)
to_negative (some (suc n)) = if ltb n (2 ^ 63) then some (negsuc n) else none

-- strconv.Atoi on a 64-bit machine; `none` is an error
unfoldable pub atoi : Text → Option ℤ
unfolding magnitude digits_onto to_positive to_negative
atoi [] = none
atoi (c ∷ s) =
    if nat_eq c b'-'
    then to_negative (magnitude s)
    else if nat_eq c b'+'
    then to_positive (magnitude s)
    else to_positive (magnitude (c ∷ s))

-- strconv.ParseBool; `none` is an error
unfoldable pub parse_bool : Text → Option Bool
parse_bool s =
    if contains
      (bytes "1" ∷ bytes "t" ∷ bytes "T" ∷ bytes "true" ∷ bytes "TRUE" ∷ bytes "True" ∷ []) s
    then some true
    else if contains
        (bytes "0" ∷ bytes "f" ∷ bytes "F" ∷ bytes "false" ∷ bytes "FALSE" ∷ bytes "False" ∷ []) s
    then some false
    else none
