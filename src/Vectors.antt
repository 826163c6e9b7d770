-- ===== src/Vectors.antt =====
-- scripts/generate_vectors.go: the test vectors of docs/crypto_vectors.md.
pub mod Accepted
use blindvault.Base.{Bool, true, false, not, Option, none, some, Text, bytes, if◌then◌else◌}
use blindvault.Apperr.{GoError, plain, wrapped, Result, ok, err, map_err, check, ◌>>=◌}
use blindvault.Crypto.Blst.{Blst, Platform}
use blindvault.Crypto.Derive.{derive_signing_key}
use blindvault.Crypto.Dleq.{DleqProof, dleq_prove, dleq_verify}
use blindvault.Crypto.Engine.{hash_to_curve, blind_message, sign_blinded, unblind_signature}
use blindvault.Crypto.Nullifier.{compute_nullifier}
use blindvault.Crypto.Scalar.{new_random_scalar, pub_key, scalar_from_bytes}
use blindvault.Validation.Hex.{decode_string, encode_to_string}

abbrev pub master_seed_hex : Text
master_seed_hex = bytes "000102030405060708090a0b0c0d0e0f101112131415161718191a1b1c1d1e1f"

abbrev pub vector_epoch : Text
vector_epoch = bytes "2026-01"

abbrev pub credential_class : Text
credential_class = bytes "tier_gold"

abbrev pub vector_message : Text
vector_message = bytes "Hello BlindVault"

abbrev pub vector_dst : Text
vector_dst = bytes "BCIS-V1-MESSAGE"

abbrev pub random_scalar : Text
random_scalar = bytes "38c68a61123fdfd471569e3fb9398b29a8f96d27b99f36677dc3b9163a618b49"

-- The lines that are written, behind the five parameters.
pub record VectorTexts : Type 0 where
  pub derived_sk : Text
  pub public_key : Text
  pub blinded_message : Text
  pub blind_signature : Text
  pub proof_r1 : Text
  pub proof_r2 : Text
  pub proof_s : Text
  pub proof_c : Text
  pub random : Text
  pub unblinded_signature : Text
  pub witness : Text
  pub nullifier : Text

-- The errors of the file system: MkdirAll, Create and the write.
pub record FileErrors : Type 0 where
  pub mkdir : Option GoError
  pub create : Option GoError
  pub write : Option GoError

-- the message of a step that ends the program
abbrev step {ℓ} : {A : Type ℓ} → Text → Result A → Result A
step prefix r = map_err (wrapped prefix) r

module _ (P : Platform) (B : Blst) where
  -- What the vectors are made of.
  pub record Vectors : Type 0 where
    pub sk : B.Scalar
    pub witness : B.G1
    pub r : B.Scalar
    pub blinded : B.G1
    pub blind_sig : B.G1
    pub unblinded : B.G1
    pub proof : DleqProof B

  -- the blinding factor: random with `--rand`, or the constant
  unfoldable pub blinding_factor : Bool → Result Text → Result B.Scalar
  blinding_factor true random =
      step (bytes "failed to generate blinding scalar") (new_random_scalar B random)
  blinding_factor false random = do
    raw ← step (bytes "failed to decode scalar from hex") (decode_string random_scalar)
    step (bytes "failed to convert blinding scalar from bytes") (scalar_from_bytes B raw)

  -- the signing key of the constants
  unfoldable pub vector_key : Result B.Scalar
  vector_key = do
    seed ← step (bytes "failed to decode master seed") (decode_string master_seed_hex)
    step (bytes "failed to derive signing key")
        (derive_signing_key P B (some (P.new_enclave seed)) vector_epoch credential_class)

  -- the steps up to the proof and its check; the texts are what rand.Read yields for the blinding
  -- factor and for the proof
  unfoldable pub make_vectors : Bool → Result Text → Result Text → Result Vectors
  make_vectors rand blinding_random proof_random = do
    sk ← vector_key
    point ←
        step (bytes "failed to hash to curve") (hash_to_curve B vector_message (some vector_dst))
    r ← blinding_factor rand blinding_random
    blinded ← step (bytes "failed to blind message") (blind_message B point r)
    blind_sig ← step (bytes "failed to sign blinded message") (sign_blinded B blinded sk)
    unblinded ← step (bytes "failed to unblind signature") (unblind_signature B blind_sig r)
    proof ←
        step (bytes "failed to generate DLEQ proof")
          (dleq_prove B proof_random sk blinded (pub_key B sk))
    if not (dleq_verify B proof blinded blind_sig (pub_key B sk))
        then err (plain (bytes "DLEQ proof verification failed"))
        else ok (record {
          sk = sk;
          witness = point;
          r = r;
          blinded = blinded;
          blind_sig = blind_sig;
          unblinded = unblinded;
          proof = proof;
        })

  -- the arguments of Fprintf
  unfoldable pub vector_texts : Vectors → VectorTexts
  vector_texts v = record {
    derived_sk = encode_to_string (B.scalar_serialize v.sk);
    public_key = encode_to_string (B.compress2 (pub_key B v.sk));
    blinded_message = encode_to_string (B.compress1 v.blinded);
    blind_signature = encode_to_string (B.compress1 v.blind_sig);
    proof_r1 = encode_to_string (B.compress2 v.proof.r1);
    proof_r2 = encode_to_string (B.compress1 v.proof.r2);
    proof_s = encode_to_string (B.scalar_serialize v.proof.s);
    proof_c = encode_to_string (B.scalar_serialize v.proof.c);
    random = encode_to_string (B.scalar_serialize v.r);
    unblinded_signature = encode_to_string (B.compress1 v.unblinded);
    witness = encode_to_string (B.compress1 v.witness);
    nullifier = encode_to_string (compute_nullifier P B vector_epoch credential_class v.unblinded);
  }

  -- main: the texts that are written, or the message with which the program exits
  unfoldable pub generate : FileErrors → Bool → Result Text → Result Text → Result VectorTexts
  unfolding vector_texts
  generate files rand blinding_random proof_random = do
    _ ← check files.mkdir (wrapped (bytes "failed to create output directory"))
    _ ← check files.create (wrapped (bytes "failed to create output file"))
    v ← make_vectors rand blinding_random proof_random
    _ ← check files.write (wrapped (bytes "failed to write vectors"))
    ok (vector_texts v)
