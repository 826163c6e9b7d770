-- ===== src/Vectors/Accepted.antt =====
-- The test vectors (scripts/generate_vectors.go) against a server of the same seed
-- (internal/service/credentials.go).
use blindvault.Base.{ℕ, ◌≡◌, refl, Bool, true, false, none, some, [], Text, arith}
use blindvault.Apperr.{Result, ok}
use blindvault.Context.{Context, check_context}
use blindvault.Crypto.Blst.{Blst, Platform}
use blindvault.Crypto.Derive.{derive_signing_key}
use blindvault.Crypto.Dleq.{DleqProof, dleq_prove}
use blindvault.Crypto.Dleq.Completeness.{dleq_verify-prove}
use blindvault.Crypto.Engine.{hash_to_curve, blind_message, sign_blinded, unblind_signature}
use blindvault.Crypto.Engine.RoundTrip.{mult1-mult1_inverse}
use blindvault.Crypto.Laws.{IsEncoding, IsGroup, IsPairing}
use blindvault.Crypto.Nullifier.{compute_nullifier}
use blindvault.Crypto.Scalar.{is_zero, pub_key}
use blindvault.Service.Config.Seed.{master_seed}
use blindvault.Service.Credentials.{Service, accepted}
use blindvault.Service.Credentials.Consume.{admit, consume}
use blindvault.Service.Credentials.Consume.Acceptance.{consume_credential}
use blindvault.Service.Credentials.Points.{IsBytes}
use blindvault.Storage.{NullifierStore, RevocationStore}
use blindvault.Validation.Hex.{decode_string}
use blindvault.Vectors.{
  VectorTexts, Vectors, FileErrors, master_seed_hex, vector_epoch, credential_class, vector_message,
  vector_dst, blinding_factor, vector_key, make_vectors, vector_texts, generate,
}

module _ (P : Platform) (B : Blst) where
  -- The vectors of a key, a blinding factor and a proof.
  abbrev vectors_of : B.Scalar → B.Scalar → DleqProof B → Vectors P B
  vectors_of sk r proof =
      let point : B.G1 = B.hash_to_g1 vector_message vector_dst in
      record {
        sk = sk;
        witness = point;
        r = r;
        blinded = B.mult1 point r;
        blind_sig = B.mult1 (B.mult1 point r) sk;
        unblinded = B.mult1 point sk;
        proof = proof;
      }

  -- Whenever the key, the blinding factor and the proof can be made, so can the vectors: the proof
  -- passes its check, and the unblinded signature is that of the witness.
  make_vectors-vectors_of :
      IsGroup B
      → IsEncoding B
      → (rand : Bool) (blinding_random proof_random : Result Text) (sk r : B.Scalar)
        (proof : DleqProof B)
      → vector_key P B ≡ ok sk
      → blinding_factor P B rand blinding_random ≡ ok r
      → is_zero B r ≡ false
      → let point = B.hash_to_g1 vector_message vector_dst in
        dleq_prove B proof_random sk (B.mult1 point r) (pub_key B sk) ≡ ok proof
        → make_vectors P B rand blinding_random proof_random ≡ ok (vectors_of sk r proof)
  unfolding make_vectors hash_to_curve blind_message sign_blinded unblind_signature
  make_vectors-vectors_of G E rand blinding_random proof_random sk r proof key factor nonzero
        proved =
      let point = B.hash_to_g1 vector_message vector_dst in
      let member = E.in_g1-hash_to_g1 vector_message vector_dst in
      let unblinds : B.mult1 (B.mult1 (B.mult1 point r) sk) (B.scalar_inverse r)
          ≡ B.mult1 point sk =
        mult1-mult1_inverse B G point r sk member nonzero in
      rw
        (
          key,
          factor,
          proved,
          dleq_verify-prove B G proof_random sk (B.mult1 point r) proof
              (E.in_g1-mult1 point r member) proved,
          unblinds,
        )
        refl

  module _ (G : IsGroup B) (E : IsEncoding B) (W : IsBytes B) (Q : IsPairing B) {N : NullifierStore}
      {V : RevocationStore} where
    -- The vectors can be generated and written, and a server with their master seed accepts their
    -- unblinded signature and witness, if it admits their class and epoch, its store takes the
    -- nullifier as new and the request is not cancelled; the key, the blinding factor, which is not
    -- zero, and the proof are taken as made.
    pub consume-generate :
        (rand : Bool) (blinding_random proof_random : Result Text) (seed : Text) (sk r : B.Scalar)
        (proof : DleqProof B) (files : FileErrors) (ctx : Context) (now : ℕ) (s : Service P N V)
        → decode_string master_seed_hex ≡ ok seed
        → derive_signing_key P B (some (P.new_enclave seed)) vector_epoch credential_class ≡ ok sk
        → blinding_factor P B rand blinding_random ≡ ok r
        → is_zero B r ≡ false
        → let point = B.hash_to_g1 vector_message vector_dst in
          dleq_prove B proof_random sk (B.mult1 point r) (pub_key B sk) ≡ ok proof
          → files.mkdir ≡ none
          → files.create ≡ none
          → files.write ≡ none
          → admit P B now credential_class vector_epoch s ≡ ok none
          → (master_seed P s.config).0 ≡ ok (P.new_enclave seed)
          → check_context ctx 0 ≡ none
          → (N.check_and_store
              (record { done = check_context ctx 1; now = now })
              (compute_nullifier P B vector_epoch credential_class (B.mult1 point sk))
              s.store).0
            ≡ ok true
          → (texts : VectorTexts) × (generate P B files rand blinding_random proof_random
              ≡ ok texts)
            × ((consume P B ctx now
                  (record {
                    signature = texts.unblinded_signature;
                    witness = texts.witness;
                    class = credential_class;
                    epoch = vector_epoch;
                  })
                  s).0
                ≡ ok (record { status = accepted; error = [] }))
    unfolding generate vector_texts vector_key
    consume-generate rand blinding_random proof_random seed sk r proof files ctx now s decoded key
          factor nonzero proved made created written admitted sealed live new =
        let point = B.hash_to_g1 vector_message vector_dst in
        let v =
          make_vectors-vectors_of G E rand blinding_random proof_random sk r proof
            (ground (arith, decoded, key)) factor nonzero proved in
        (
          vector_texts P B (vectors_of sk r proof),
          ground (arith, v, made, created, written),
          consume_credential P B E W Q ctx now point sk credential_class vector_epoch
              (P.new_enclave seed) s admitted sealed key live
              (E.in_g1-hash_to_g1 vector_message vector_dst) new,
        )
