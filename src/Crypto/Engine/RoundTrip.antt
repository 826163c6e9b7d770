-- ===== src/Crypto/Engine/RoundTrip.antt =====
-- Blinding, signing and unblinding (pkg/crypto/bls.go), and the encodings on the way between client
-- and server (scalar.go, serialize.go).
use blindvault.Base.{◌≡◌, ◌<◌, ◌∙◌, ap, true, false, Text, length, arith}
use blindvault.Apperr.{Result, ok, ◌>>=◌}
use blindvault.Crypto.Blst.{Blst}
use blindvault.Crypto.Scalar.{
  is_zero, scalar_from_bytes, deserialize_g1, deserialize_g2, be_value, field_order,
  new_random_scalar, random_scalar_dst,
}
use blindvault.Crypto.Laws.{IsGroup, IsField, IsEncoding}
use blindvault.Crypto.Engine.{blind_message, sign_blinded, unblind_signature}

module _ (B : Blst) where
  pub mult1-mult1_inverse :
      IsGroup B
      → (msg : B.G1) (r sk : B.Scalar) → B.in_g1 msg ≡ true
      → is_zero B r ≡ false
      → B.mult1 (B.mult1 (B.mult1 msg r) sk) (B.scalar_inverse r) ≡ B.mult1 msg sk
  mult1-mult1_inverse G msg r sk member nonzero =
      G.mult1_comm (B.mult1 msg r) sk (B.scalar_inverse r)
      ∙ ap (λ p. B.mult1 p sk) (G.mult1_inverse msg r member nonzero)

  -- Unblinding what the server made of a blinded message gives the signature of the message
  -- itself, for every message point of the subgroup and every blinding factor other than zero.
  pub unblind-sign-blind :
      IsGroup B
      → (msg : B.G1) (r sk : B.Scalar) → B.in_g1 msg ≡ true
      → is_zero B r ≡ false
      → (do
        blinded ← blind_message B msg r
        sig ← sign_blinded B blinded sk
        unblind_signature B sig r)
        ≡ sign_blinded B msg sk
  unfolding blind_message sign_blinded unblind_signature
  unblind-sign-blind G msg r sk member nonzero =
      ap ok (mult1-mult1_inverse G msg r sk member nonzero)

  -- A random scalar is never zero, so it can serve as a blinding factor.
  pub new_random_scalar_nonzero :
      IsField B
      → (random : Result Text) (r : B.Scalar) → new_random_scalar B random ≡ ok r
      → is_zero B r ≡ false
  unfolding new_random_scalar
  new_random_scalar_nonzero F (ok seed) r h =
      F.hash_to_nonzero seed random_scalar_dst r (ground arith)
  new_random_scalar_nonzero F (Result.err e) r h = cc

  -- The 32 bytes that a scalar is stored as are read back as that scalar.
  pub scalar_from_bytes-serialize :
      IsField B → (s : B.Scalar) → scalar_from_bytes B (B.scalar_serialize s) ≡ ok s
  unfolding scalar_from_bytes
  scalar_from_bytes-serialize F s = ground (
    arith,
    F.length-scalar_serialize s,
    F.scalar_serialize-lt s,
    F.from_bendian-scalar_serialize s,
  )

  -- Bytes are accepted as a scalar exactly when there are 32 of them and they stand for a number
  -- below the order of the field.
  pub scalar_from_bytes_bounds :
      (b : Text) (s : B.Scalar)
      → scalar_from_bytes B b ≡ ok s
      → (length b ≡ 32) × (be_value b < field_order) × (s ≡ B.from_bendian b)
  unfolding scalar_from_bytes
  scalar_from_bytes_bounds b s h = ground arith

  pub deserialize_g1-compress1 :
      IsEncoding B → (p : B.G1) → B.in_g1 p ≡ true → deserialize_g1 B (B.compress1 p) ≡ ok p
  unfolding deserialize_g1
  deserialize_g1-compress1 E p h = ground (arith, E.uncompress1-compress1 p)

  pub deserialize_g2-compress2 :
      IsEncoding B → (q : B.G2) → B.in_g2 q ≡ true → deserialize_g2 B (B.compress2 q) ≡ ok q
  unfolding deserialize_g2
  deserialize_g2-compress2 E q h = ground (arith, E.uncompress2-compress2 q)
