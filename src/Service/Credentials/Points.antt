-- ===== src/Service/Credentials/Points.antt =====
-- Points that arrive as hex text: decoded, then deserialised (internal/service/credentials.go).
use blindvault.Base.{◌≡◌, Text, All, ◌<◌}
use blindvault.Apperr.{ok}
use blindvault.Crypto.Blst.{Blst}
use blindvault.Validation.Hex.{decode_string, encode_to_string, decode_string-encode}

module _ (B : Blst) where
  -- hex.EncodeToString(p.Compress())
  abbrev pub hex_g1 : B.G1 → Text
  hex_g1 p = encode_to_string (B.compress1 p)

  -- The compressed forms and the form of a scalar are made of bytes.
  pub record IsBytes : Type 0 where
    pub compress1_bytes : (p : B.G1) → All (λ b. b < 256) (B.compress1 p)
    pub compress2_bytes : (q : B.G2) → All (λ b. b < 256) (B.compress2 q)
    pub serialize_bytes : (s : B.Scalar) → All (λ b. b < 256) (B.scalar_serialize s)

  pub decode-hex_g1 : IsBytes → (p : B.G1) → decode_string (hex_g1 p) ≡ ok (B.compress1 p)
  decode-hex_g1 W p = decode_string-encode (B.compress1 p) (W.compress1_bytes p)
