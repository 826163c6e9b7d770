-- ===== src/Validation.antt =====
-- internal/validation: the formats of epochs and classes (validate.go) and the checks behind the
-- struct tags (schema.go), with the part of encoding/hex that they and the service use.
pub mod Hex
pub mod Schema
pub mod Formats
use blindvault.Base.{
  ℕ, suc, Bool, true, false, ◌&&◌, ◌||◌, List, [], ◌∷◌, Text, length, ltb, leb, nat_eq,
}

-- \d
unfoldable pub is_digit : ℕ → Bool
is_digit c = leb b'0' c && leb c b'9'

-- [A-Za-z0-9_\-]
unfoldable pub is_class_char : ℕ → Bool
unfolding is_digit
is_class_char c =
    (leb b'A' c && leb c b'Z')
    || (leb b'a' c && leb c b'z')
    || is_digit c
    || nat_eq c b'_'
    || nat_eq c b'-'

unfoldable pub all_chars : (ℕ → Bool) → Text → Bool
all_chars p [] = true
all_chars p (c ∷ s) = p c && all_chars p s

-- Epoch: ^\d{4}-\d{2}$
unfoldable pub epoch : Text → Bool
unfolding is_digit
epoch (y1 ∷ y2 ∷ y3 ∷ y4 ∷ dash ∷ m1 ∷ m2 ∷ []) =
    is_digit y1
    && is_digit y2
    && is_digit y3
    && is_digit y4
    && nat_eq dash b'-'
    && is_digit m1
    && is_digit m2
epoch _ = false

-- Class: ^[A-Za-z0-9_\-]{1,64}$
unfoldable pub class : Text → Bool
unfolding all_chars is_class_char
class s = leb 1 (length s) && leb (length s) 64 && all_chars is_class_char s
