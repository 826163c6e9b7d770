-- ===== src/Validation/Hex.antt =====
-- encoding/hex: EncodeToString and DecodeString.
use blindvault.Base.{
  ℕ, ◌+◌, ◌-◌, ◌*◌, ◌/◌, ◌%◌, ◌<◌, ◌≡◌, refl, ◌&&◌, Option, none, some, [], ◌∷◌, Text, bytes, All,
  ltb, leb, if◌then◌else◌, arith,
}
use blindvault.Apperr.{Result, ok, err, plain, ◌>>=◌}

-- "0123456789abcdef"[n]
unfoldable pub hex_digit : ℕ → ℕ
hex_digit n = if ltb n 10 then b'0' + n else b'a' + (n - 10)

unfoldable pub encode_to_string : Text → Text
encode_to_string [] = []
encode_to_string (b ∷ s) = hex_digit (b / 16) ∷ (hex_digit (b % 16) ∷ encode_to_string s)

-- the value of a hexadecimal digit, of either case
unfoldable pub from_hex_char : ℕ → Option ℕ
from_hex_char c =
    if leb b'0' c && leb c b'9'
    then some (c - b'0')
    else if leb b'a' c && leb c b'f'
    then some (c - b'a' + 10)
    else if leb b'A' c && leb c b'F'
    then some (c - b'A' + 10)
    else none

-- The message of Go also names the byte.
abbrev digit : ℕ → Result ℕ
digit c = elim (from_hex_char c) [
  | none ↦ err (plain (bytes "encoding/hex: invalid byte"))
  | some d ↦ ok d
]

unfoldable pub decode_string : Text → Result Text
decode_string [] = ok []
decode_string (c ∷ []) = do _ ← digit c; err (plain (bytes "encoding/hex: odd length hex string"))
decode_string (c ∷ d ∷ s) =
    let rest = decode_string s in
    do hi ← digit c; lo ← digit d; tail ← rest; ok ((hi * 16 + lo) ∷ tail)

-- what DecodeString returns beside an error: the bytes that were decoded before it
unfoldable pub decode_prefix : Text → Text
decode_prefix [] = []
decode_prefix (c ∷ []) = []
decode_prefix (c ∷ d ∷ s) =
    let rest = decode_prefix s in
    elim (from_hex_char c) [
      | none ↦ []
      | some hi ↦ elim (from_hex_char d) [ none ↦ [] | some lo ↦ (hi * 16 + lo) ∷ rest ]
    ]

-- Without an error these are all bytes.
pub decode_prefix-decode_string : (s b : Text) → decode_string s ≡ ok b → decode_prefix s ≡ b
unfolding decode_string decode_prefix
decode_prefix-decode_string [] b h = ground arith
decode_prefix-decode_string (c ∷ []) b h = ground arith
decode_prefix-decode_string (c ∷ d ∷ s) b h =
    cases (decode_string s) refl (decode_prefix-decode_string s)
  where
    cases :
        (r : Result Text)
        → decode_string s ≡ r
        → ((t : Text) → decode_string s ≡ ok t → decode_prefix s ≡ t)
        → decode_prefix (c ∷ d ∷ s) ≡ b
    cases (err e) p same = absurd (ground arith)
    cases (ok tail) p same = ground (arith, same tail p)

from_hex_char-hex_digit : (n : ℕ) → n < 16 → from_hex_char (hex_digit n) ≡ some n
unfolding from_hex_char hex_digit
from_hex_char-hex_digit n h = ground arith

-- What was encoded decodes to itself; the bytes are below 256.
pub decode_string-encode :
    (s : Text) → All (λ b. b < 256) s → decode_string (encode_to_string s) ≡ ok s
unfolding encode_to_string decode_string
decode_string-encode [] h = refl
decode_string-encode (b ∷ s) h = ground (
  arith,
  from_hex_char-hex_digit (b / 16),
  from_hex_char-hex_digit (b % 16),
  decode_string-encode s h.1,
)
