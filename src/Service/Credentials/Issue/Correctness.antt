-- ===== src/Service/Credentials/Issue/Correctness.antt =====
-- What a response of Issue holds (internal/service/credentials.go).
use blindvault.Base.{◌≡◌, refl, some, true, Text, arith}
use blindvault.Apperr.{Result, ok, err, map_err, check, ok_of_bind, ok_of_map_err}
use blindvault.Context.{Context, check_context}
use blindvault.Crypto.Blst.{Blst, Platform}
use blindvault.Crypto.Derive.{derive_signing_key}
use blindvault.Crypto.Dleq.{DleqProof, compute_challenge, dleq_prove, dleq_verify, require_ok}
use blindvault.Crypto.Dleq.Completeness.{dleq_verify-prove}
use blindvault.Crypto.Engine.{sign_blinded}
use blindvault.Crypto.Laws.{IsGroup}
use blindvault.Crypto.Scalar.{deserialize_g1, new_random_scalar, pub_key}
use blindvault.Service.Config.Seed.{master_seed}
use blindvault.Service.Credentials.{IssueResult, Service}
use blindvault.Service.Credentials.Issue.{read_blinded, issue_result, sign, issue}
use blindvault.Storage.{NullifierStore, RevocationStore}

module _ (P : Platform) (B : Blst) where
  -- The two commitments of a proof are made with one nonce.
  pub record IsCommitted (nonce : B.Scalar) (blinded : B.G1) (proof : DleqProof B) : Type 0 where
    pub first : proof.r1 ≡ B.mult2 B.generator2 nonce
    pub second : proof.r2 ≡ B.mult1 blinded nonce

  dleq_prove-IsCommitted :
      (random : Result Text) (sk : B.Scalar) (blinded : B.G1) (pk : B.G2) (proof : DleqProof B)
      → dleq_prove B random sk blinded pk ≡ ok proof
      → (nonce : B.Scalar) × IsCommitted nonce blinded proof
  unfolding dleq_prove
  dleq_prove-IsCommitted random sk blinded pk proof h =
      let (t, drawn, h1) = ok_of_bind (new_random_scalar B random) _ h in
      let r1 = B.mult2 B.generator2 t in
      let r2 = B.mult1 blinded t in
      let (c, challenged, h2) =
        ok_of_bind (compute_challenge B r1 r2 pk blinded (B.mult1 blinded sk)) _ h1 in
      let (c_sk, multiplied, h3) = ok_of_bind (require_ok (B.scalar_mul c sk) _) _ h2 in
      let (s, added, h4) = ok_of_bind (require_ok (B.scalar_add t c_sk) _) _ h3 in
      (t, record { first = cc h4; second = cc h4 })

  -- The response is about the signature of the blinded message under the key of the active epoch
  -- and the class, with a proof that its verifier accepts.
  pub record IsIssued (ctx : Context) (blinded_hex epoch class : Text) (seed : Result P.Enclave)
      (result : IssueResult) : Type 0 where
    pub blinded : B.G1
    pub read : read_blinded P B ctx blinded_hex class ≡ ok blinded
    pub enclave : P.Enclave
    pub opened : seed ≡ ok enclave
    pub sk : B.Scalar
    pub key : derive_signing_key P B (some enclave) epoch class ≡ ok sk
    pub proof : DleqProof B
    pub response : result ≡ issue_result P B (B.mult1 blinded sk) (pub_key B sk) epoch proof
    pub nonce : B.Scalar
    pub commitments : IsCommitted nonce blinded proof
    pub proven : dleq_verify B proof blinded (B.mult1 blinded sk) (pub_key B sk) ≡ true

  -- The point that Issue reads is one of the subgroup.
  read_blinded-in_g1 :
      (ctx : Context) (blinded_hex class : Text) (p : B.G1)
      → read_blinded P B ctx blinded_hex class ≡ ok p
      → B.in_g1 p ≡ true
  unfolding read_blinded deserialize_g1
  read_blinded-in_g1 ctx blinded_hex class p h = ground arith

  sign-IsIssued :
      IsGroup B
      → (ctx : Context) (random : Result Text) (blinded_hex epoch class : Text)
        (seed : Result P.Enclave) (result : IssueResult) (blinded : B.G1)
      → read_blinded P B ctx blinded_hex class ≡ ok blinded
      → sign P B ctx random blinded epoch class seed ≡ ok result
      → IsIssued ctx blinded_hex epoch class seed result
  unfolding sign sign_blinded
  sign-IsIssued G ctx random blinded_hex epoch class seed result blinded read h =
      let (enclave, opened, h1) = ok_of_bind (map_err _ seed) _ h in
      let (sk, key, h2) =
        ok_of_bind (map_err _ (derive_signing_key P B (some enclave) epoch class)) _ h1 in
      let (_, live, h3) = ok_of_bind (check (check_context ctx 1) _) _ h2 in
      let (proof, proved, h4) =
        ok_of_bind (map_err _ (dleq_prove B random sk blinded (pub_key B sk))) _ h3 in
      let committed =
        dleq_prove-IsCommitted random sk blinded (pub_key B sk) proof
          (ok_of_map_err _ (dleq_prove B random sk blinded (pub_key B sk)) proved) in
      record {
        blinded = blinded;
        read = read;
        enclave = enclave;
        opened = ok_of_map_err _ seed opened;
        sk = sk;
        key = ok_of_map_err _ (derive_signing_key P B (some enclave) epoch class) key;
        proof = proof;
        response = cc (h4);
        nonce = committed.0;
        commitments = committed.1;
        proven =
            dleq_verify-prove B G random sk blinded proof
              (read_blinded-in_g1 ctx blinded_hex class blinded read)
              (ok_of_map_err _ (dleq_prove B random sk blinded (pub_key B sk)) proved);
      }

  module _ {N : NullifierStore} {V : RevocationStore} where
    -- Whenever Issue answers without an error, the response holds the blind signature under the key
    -- of the active epoch and the class, the public key of it, and a proof that verifies.
    pub issue-IsIssued :
        IsGroup B
        → (ctx : Context) (random : Result Text) (blinded_hex class : Text) (s : Service P N V)
          (result : IssueResult)
        → (issue P B ctx random blinded_hex class s).0 ≡ ok result
        → IsIssued ctx blinded_hex s.config.active_epoch class (master_seed P s.config).0 result
    unfolding issue
    issue-IsIssued G ctx random blinded_hex class s result h =
        cases (read_blinded P B ctx blinded_hex class) refl
      where
        cases :
            (b : Result B.G1)
            → read_blinded P B ctx blinded_hex class ≡ b
            → IsIssued ctx blinded_hex s.config.active_epoch class (master_seed P s.config).0 result
        cases (err e) p = absurd (ground arith)
        cases (ok blinded) p =
            sign-IsIssued G ctx random blinded_hex s.config.active_epoch class
              (master_seed P s.config).0 result blinded p (ground arith)

    -- Issuing touches neither store.
    pub issue_stores :
        (ctx : Context) (random : Result Text) (blinded_hex class : Text) (s : Service P N V)
        → let t = (issue P B ctx random blinded_hex class s).1 in
          (t.store ≡ s.store) × (t.revocation_store ≡ s.revocation_store) × (t.metrics ≡ s.metrics)
    unfolding issue
    issue_stores ctx random blinded_hex class s = ground arith
