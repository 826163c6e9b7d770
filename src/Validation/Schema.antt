-- ===== src/Validation/Schema.antt =====
-- The functions that schema.go registers for the struct tags `hex_len`, `class` and `epoch`. The
-- validator library that runs them is a parameter of the handlers.
use blindvault.Base.{
  ℕ, Bool, true, false, ◌||◌, ◌&&◌, [], ◌∷◌, Text, leb, nat_eq, length, if◌then◌else◌,
}
use blindvault.Apperr.{ok, err}
use blindvault.Validation.Hex.{decode_string}

-- strings.TrimSpace(s) == "", for ASCII space; a text with any other space is no hex text either
is_blank : Text → Bool
is_blank [] = true
is_blank (c ∷ s) =
    let rest = is_blank s in if nat_eq c 32 || (leb 9 c && leb c 13) then rest else false

-- the function behind `hex_len=expected`
unfoldable pub hex_len : ℕ → Text → Bool
unfolding is_blank
hex_len expected field = if is_blank field then false else elim (decode_string field) [
  | err e ↦ false
  | ok decoded ↦ nat_eq (length decoded) expected
]
