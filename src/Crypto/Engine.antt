-- ===== src/Crypto/Engine.antt =====
-- pkg/crypto/bls.go: the blind signature scheme of BLS12Engine.
pub mod RoundTrip
pub mod Verification
use blindvault.Base.{Bool, true, Option, none, some, Text, bytes}
use blindvault.Apperr.{Result, ok, err, plain}
use blindvault.Crypto.Blst.{Blst}

module _ (B : Blst) where
  -- defaultHashToCurve, which HashToCurve calls; a nil `dst` is `none`
  unfoldable pub hash_to_curve : Text → Option Text → Result B.G1
  hash_to_curve text none = err (plain (bytes "dst required"))
  hash_to_curve text (some dst) = ok (B.hash_to_g1 text dst)

  unfoldable pub blind_message : B.G1 → B.Scalar → Result B.G1
  blind_message msg r = ok (B.mult1 msg r)

  unfoldable pub sign_blinded : B.G1 → B.Scalar → Result B.G1
  sign_blinded blinded sk = ok (B.mult1 blinded sk)

  unfoldable pub unblind_signature : B.G1 → B.Scalar → Result B.G1
  unblind_signature sig r = ok (B.mult1 sig (B.scalar_inverse r))

  unfoldable pub verify_point : B.G1 → B.G1 → B.G2 → Bool
  verify_point sig msg_point pk =
      B.final_verify (B.miller_loop B.generator2 sig) (B.miller_loop pk msg_point)

  -- BLS12Engine.Verify; both checks of blst are asked for
  unfoldable pub verify : B.G1 → Text → Text → B.G2 → Bool
  verify sig msg dst pk = B.sig_verify sig true pk true msg dst
