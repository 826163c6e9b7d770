-- ===== src/Commands/Points.antt =====
-- What the commands of cmd/bv read and print as hex text: points and scalars.
use blindvault.Base.{Text, bytes}
use blindvault.Apperr.{Result, ok, ◌>>=◌}
use blindvault.Commands.{must, prefixed}
use blindvault.Crypto.Blst.{Blst}
use blindvault.Crypto.Dleq.{DleqProof}
use blindvault.Crypto.Scalar.{deserialize_g1, deserialize_g2, scalar_from_bytes}
use blindvault.Validation.Hex.{decode_string}

-- The flags of `bv verify`.
pub record ProofTexts : Type 0 where
  pub blinded : Text
  pub signature : Text
  pub public_key : Text
  pub r1 : Text
  pub r2 : Text
  pub s : Text
  pub c : Text

module _ (B : Blst) where
  -- The points and the proof that they stand for.
  pub record ProofPoints : Type 0 where
    pub proof : DleqProof B
    pub blinded : B.G1
    pub signature : B.G1
    pub public_key : B.G2

  -- a point flag of `bv unblind` and `bv redeem`, with the prefixes of its two messages
  unfoldable pub read_g1 : Text → Text → Text → Result B.G1
  read_g1 not_hex not_point text = do
    raw ← prefixed not_hex (decode_string text)
    prefixed not_point (deserialize_g1 B raw)

  -- the seven `must` of the decoding and the seven of the points, in verifyCmd
  unfoldable pub read_proof : ProofTexts → Result ProofPoints
  unfolding must
  read_proof t = do
    b ← must (decode_string t.blinded) (bytes "Error: invalid blinded hex")
    sig_b ← must (decode_string t.signature) (bytes "Error: invalid Signature hex")
    pk_b ← must (decode_string t.public_key) (bytes "Error: invalid Public Key hex")
    r1_b ← must (decode_string t.r1) (bytes "Error: invalid R1 hex")
    r2_b ← must (decode_string t.r2) (bytes "Error: invalid R2 hex")
    s_b ← must (decode_string t.s) (bytes "Error: invalid S hex")
    c_b ← must (decode_string t.c) (bytes "Error: invalid C hex")
    blinded ← must (deserialize_g1 B b) (bytes "Error: invalid blindedPoint")
    sig ← must (deserialize_g1 B sig_b) (bytes "Error: invalid signature point")
    pk ← must (deserialize_g2 B pk_b) (bytes "Error: invalid Public Key")
    r1 ← must (deserialize_g2 B r1_b) (bytes "Error: invalid R1 point")
    r2 ← must (deserialize_g1 B r2_b) (bytes "Error: invalid R2 point")
    s ← must (scalar_from_bytes B s_b) (bytes "Error: invalid Scalar S")
    c ← must (scalar_from_bytes B c_b) (bytes "Error: invalid Scalar C")
    ok (record {
      proof = record { r1 = r1; r2 = r2; s = s; c = c };
      blinded = blinded;
      signature = sig;
      public_key = pk;
    })
