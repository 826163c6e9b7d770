-- ===== src/Tests/Formats.antt =====
-- Runs of the functions of strings, strconv, net and encoding/hex, and of the formats.
use blindvault.Base.{
  ◌≡◌, refl, true, false, none, some, [], ◌∷◌, bytes, negsuc, Text_discrete, trim_space, split,
  atoi, parse_bool,
}
use blindvault.Apperr.{ok, err, plain}
use blindvault.Api.HostPort.{split_host_port}
use blindvault.Validation
use blindvault.Validation.Hex.{decode_string, from_hex_char, encode_to_string, hex_digit}
use blindvault.Validation.Schema.{hex_len}

trimmed : trim_space (bytes "  a b ") ≡ bytes "a b"
unfolding trim_space
trimmed = refl

pieces : split b',' (bytes "a,,b") ≡ bytes "a" ∷ [] ∷ bytes "b" ∷ []
unfolding split
pieces = refl

number : atoi (bytes "-042") ≡ some (negsuc 41)
unfolding atoi
number = refl

no_number : atoi (bytes "4 2") ≡ none
unfolding atoi
no_number = refl

truth : parse_bool (bytes "TRUE") ≡ some true
unfolding parse_bool Text_discrete
truth = refl

month : Validation.epoch (bytes "2026-01") ≡ true
unfolding Validation.epoch Validation.is_digit
month = refl

no_month : Validation.epoch (bytes "2026-1") ≡ false
unfolding Validation.epoch Validation.is_digit
no_month = refl

no_class : Validation.class (bytes "a:b") ≡ false
unfolding Validation.class Validation.all_chars Validation.is_class_char Validation.is_digit
no_class = refl

hexed : encode_to_string (255 ∷ 16 ∷ []) ≡ bytes "ff10"
unfolding encode_to_string hex_digit
hexed = refl

unhexed : decode_string (bytes "Ff10") ≡ ok (255 ∷ 16 ∷ [])
unfolding decode_string from_hex_char
unhexed = refl

odd : decode_string (bytes "ff1") ≡ err (plain (bytes "encoding/hex: odd length hex string"))
unfolding decode_string from_hex_char
odd = refl

short : hex_len 3 (bytes "ff10") ≡ false
unfolding hex_len decode_string from_hex_char
short = refl

host : split_host_port (bytes "192.0.2.1:80") ≡ some (bytes "192.0.2.1")
unfolding split_host_port
host = refl

host_v6 : split_host_port (bytes "[::1]:80") ≡ some (bytes "::1")
unfolding split_host_port
host_v6 = refl

no_port : split_host_port (bytes "::1") ≡ none
unfolding split_host_port
no_port = refl
