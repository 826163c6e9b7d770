-- ===== src/Service/Credentials/Issue.antt =====
-- CredentialService.Issue (internal/service/credentials.go).
pub mod Correctness
use blindvault.Base.{ℕ, Option, none, some, Text, bytes, is_empty, if◌then◌else◌}
use blindvault.Apperr.{GoError, plain, wrapped, Result, ok, err, map_err, check, ◌>>=◌}
use blindvault.Context.{Context, check_context}
use blindvault.Crypto.Blst.{Blst, Platform}
use blindvault.Crypto.Derive.{derive_signing_key}
use blindvault.Crypto.Dleq.{DleqProof, dleq_prove}
use blindvault.Crypto.Engine.{sign_blinded}
use blindvault.Crypto.Scalar.{deserialize_g1, pub_key}
use blindvault.Service.Config.{Config}
use blindvault.Service.Config.Seed.{master_seed}
use blindvault.Service.Credentials.{IssueResult, Service}
use blindvault.Storage.{NullifierStore, RevocationStore}
use blindvault.Validation.Hex.{decode_string, encode_to_string}

module _ (P : Platform) (B : Blst) where
  -- steps 1 and 2: the class, and the blinded message
  unfoldable pub read_blinded : Context → Text → Text → Result B.G1
  read_blinded ctx blinded_hex class =
      if is_empty class then err (plain (bytes "credential_class cannot be empty")) else do
        blinded_bytes ←
            map_err (wrapped (bytes "invalid blinded_message hex")) (decode_string blinded_hex)
        _ ←
            check (check_context ctx 0)
              (wrapped (bytes "request cancelled before deserializing blinded_message"))
        map_err (wrapped (bytes "invalid blinded_message point")) (deserialize_g1 B blinded_bytes)

  -- step 6: the response
  unfoldable pub issue_result : B.G1 → B.G2 → Text → DleqProof B → IssueResult
  issue_result blind_sig pk epoch proof = record {
    blind_signature = encode_to_string (B.compress1 blind_sig);
    public_key = encode_to_string (B.compress2 pk);
    key_epoch = epoch;
    proof_r1 = encode_to_string (B.compress2 proof.r1);
    proof_r2 = encode_to_string (B.compress1 proof.r2);
    proof_s = encode_to_string (B.scalar_serialize proof.s);
    proof_c = encode_to_string (B.scalar_serialize proof.c);
  }

  -- steps 3 to 5 with what MasterSeed returned: the key, the signature and the proof; `random` is
  -- what rand.Read returns
  unfoldable pub sign :
      Context → Result Text → B.G1 → Text → Text → Result P.Enclave → Result IssueResult
  unfolding issue_result
  sign ctx random blinded epoch class seed = do
    enclave ← map_err (wrapped (bytes "master seed error")) seed
    sk ←
        map_err (wrapped (bytes "key derivation failed"))
          (derive_signing_key P B (some enclave) epoch class)
    blind_sig ← map_err (wrapped (bytes "signing failed")) (sign_blinded B blinded sk)
    _ ←
        check (check_context ctx 1)
          (wrapped (bytes "request cancelled before DLEQ proof generation"))
    proof ←
        map_err (wrapped (bytes "DLEQ proof generation failed"))
          (dleq_prove B random sk blinded (pub_key B sk))
    ok (issue_result blind_sig (pub_key B sk) epoch proof)

  -- CredentialService.Issue
  unfoldable pub issue :
      {N : NullifierStore} {V : RevocationStore}
      → Context
      → Result Text
      → Text
      → Text
      → Service P N V
      → Result IssueResult × Service P N V
  issue ctx random blinded_hex class s = elim (read_blinded ctx blinded_hex class) [
    | err e ↦ (err e, s)
    | ok blinded ↦
        let (seed, config') = master_seed P s.config in
        (sign ctx random blinded s.config.active_epoch class seed, record s { config = config' })
  ]
