-- ===== src/Crypto/Engine/Verification.antt =====
-- VerifyPoint (pkg/crypto/bls.go) against its specification: the signature of a point under the key
-- `sk` is the multiple of the point by `sk`.
use blindvault.Base.{◌≡◌, refl, sym, ◌∙◌, ap, ◌↔◌, true, some, ◌&&◌, Text, arith}
use blindvault.Apperr.{ok, ◌>>=◌}
use blindvault.Crypto.Blst.{Blst}
use blindvault.Crypto.Scalar.{pub_key}
use blindvault.Crypto.Laws.{IsEncoding, IsPairing}
use blindvault.Crypto.Engine.{hash_to_curve, sign_blinded, verify, verify_point}

module _ (B : Blst) (P : IsPairing B) where
  -- A signature is accepted under a public key exactly when its pairing with the generator is that
  -- of the multiple of the message point by the secret key.
  verify_point-pair :
      (sig msg : B.G1) (sk : B.Scalar)
      → (verify_point B sig msg (pub_key B sk) ≡ true)
        ↔ (P.pair B.generator2 sig ≡ P.pair B.generator2 (B.mult1 msg sk))
  unfolding verify_point pub_key
  verify_point-pair sig msg sk =
      let scaled = P.pair-mult2 B.generator2 msg sk ∙ sym (P.pair-mult1 B.generator2 msg sk) in
      (
        λ h. (P.final_verify_iff _ _ _ _).0 h ∙ scaled,
        λ e. (P.final_verify_iff _ _ _ _).1 (e ∙ sym scaled),
      )

  -- The multiple of any point by the secret key is accepted.
  pub verify_point-mult1 :
      (msg : B.G1) (sk : B.Scalar) → verify_point B (B.mult1 msg sk) msg (pub_key B sk) ≡ true
  verify_point-mult1 msg sk = (verify_point-pair (B.mult1 msg sk) msg sk).1 refl

  -- A signature of the subgroup is accepted for a message point of the subgroup under a public key
  -- exactly when it is the multiple of the point by the secret key.
  pub verify_point_iff :
      IsEncoding B
      → (sig msg : B.G1) (sk : B.Scalar) → B.in_g1 sig ≡ true
      → B.in_g1 msg ≡ true
      → (verify_point B sig msg (pub_key B sk) ≡ true) ↔ (sig ≡ B.mult1 msg sk)
  verify_point_iff E sig msg sk inside member = (
    λ h.
        P.pair_injective sig (B.mult1 msg sk) inside (E.in_g1-mult1 msg sk member)
          ((verify_point-pair sig msg sk).0 h),
    λ e. (verify_point-pair sig msg sk).1 (ap (P.pair B.generator2) e),
  )

-- What blst promises of its verification of a message: with both checks, the signature and the key
-- are in their groups and the pairings of the hash and of the signature agree.
pub record IsSigVerify (B : Blst) : Type 0 where
  pub sig_verify_checked :
      (sig : B.G1) (pk : B.G2) (msg dst : Text)
      → B.sig_verify sig true pk true msg dst ≡ (
          B.in_g1 sig
          && B.in_g2 pk
          && B.final_verify
              (B.miller_loop B.generator2 sig)
              (B.miller_loop pk (B.hash_to_g1 msg dst)))

module _ (B : Blst) (P : IsPairing B) (E : IsEncoding B) (V : IsSigVerify B) where
  -- Verify accepts a signature of the subgroup for a message, under a public key, exactly when it is
  -- what SignBlinded makes of the point that HashToCurve gives for the message.
  pub verify-sign_blinded-hash_to_curve :
      (sig : B.G1) (msg dst : Text) (sk : B.Scalar)
      → B.in_g1 sig ≡ true
      → (verify B sig msg dst (pub_key B sk) ≡ true)
        ↔ ((do point ← hash_to_curve B msg (some dst); sign_blinded B point sk) ≡ ok sig)
  unfolding verify hash_to_curve sign_blinded verify_point pub_key
  verify-sign_blinded-hash_to_curve sig msg dst sk member =
      let point = B.hash_to_g1 msg dst in
      let checked = V.sig_verify_checked sig (pub_key B sk) msg dst in
      let exact = verify_point_iff B P E sig point sk member (E.in_g1-hash_to_g1 msg dst) in
      (
        λ h. ground (arith, checked, exact.0, E.in_g2-mult2 sk),
        λ h. ground (arith, checked, exact.1, E.in_g2-mult2 sk),
      )
