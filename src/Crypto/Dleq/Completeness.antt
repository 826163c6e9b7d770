-- ===== src/Crypto/Dleq/Completeness.antt =====
-- DLEQVerify accepts what DLEQProve makes (pkg/crypto/dleq.go), and nothing else that fails the
-- equations.
use blindvault.Base.{◌≡◌, refl, ◌↔◌, true, some, Text, arith}
use blindvault.Apperr.{Result, ok, err, ok_of_bind}
use blindvault.Crypto.Blst.{Blst}
use blindvault.Crypto.Scalar.{pub_key, new_random_scalar}
use blindvault.Crypto.Laws.{IsGroup}
use blindvault.Crypto.Dleq.{DleqProof, compute_challenge, require_ok, dleq_prove, dleq_verify}

module _ (B : Blst) where
  -- What DLEQVerify asks of a proof.
  pub record IsAccepted (proof : DleqProof B) (blinded sig : B.G1) (pk : B.G2) : Type 0 where
    pub challenge : compute_challenge B proof.r1 proof.r2 pk blinded sig ≡ ok proof.c
    pub in_g2 : B.mult2 B.generator2 proof.s ≡ B.add2 proof.r1 (B.mult2 pk proof.c)
    pub in_g1 : B.mult1 blinded proof.s ≡ B.add1 proof.r2 (B.mult1 sig proof.c)

  module _ (G : IsGroup B) where
    verify_of_accepted :
        (proof : DleqProof B) (blinded sig : B.G1) (pk : B.G2)
        → IsAccepted proof blinded sig pk
        → dleq_verify B proof blinded sig pk ≡ true
    unfolding dleq_verify
    verify_of_accepted proof blinded sig pk a =
        rw (a.challenge, dleq_verify)
          (ground (
            arith,
            G.scalar_eq_iff proof.c proof.c,
            G.eq2_iff (B.mult2 B.generator2 proof.s) (B.add2 proof.r1 (B.mult2 pk proof.c)),
            G.eq1_iff (B.mult1 blinded proof.s) (B.add1 proof.r2 (B.mult1 sig proof.c)),
          ))

    IsAccepted-of_verify :
        (proof : DleqProof B) (blinded sig : B.G1) (pk : B.G2) (c' : Result B.Scalar)
        → compute_challenge B proof.r1 proof.r2 pk blinded sig ≡ c'
        → dleq_verify B proof blinded sig pk ≡ true
        → IsAccepted proof blinded sig pk
    unfolding dleq_verify
    IsAccepted-of_verify proof blinded sig pk (err e) p h = absurd (ground arith)
    IsAccepted-of_verify proof blinded sig pk (ok c') p h = record {
      challenge = ground (arith, G.scalar_eq_iff proof.c c');
      in_g2 =
          ground (
            arith,
            G.eq2_iff (B.mult2 B.generator2 proof.s) (B.add2 proof.r1 (B.mult2 pk proof.c)),
          );
      in_g1 =
          ground
            (arith, G.eq1_iff (B.mult1 blinded proof.s) (B.add1 proof.r2 (B.mult1 sig proof.c)));
    }

    -- A proof is accepted exactly when its challenge is the hash of the commitments and the points,
    -- and both verification equations hold.
    pub dleq_verify_iff :
        (proof : DleqProof B) (blinded sig : B.G1) (pk : B.G2)
        → (dleq_verify B proof blinded sig pk ≡ true) ↔ IsAccepted proof blinded sig pk
    dleq_verify_iff proof blinded sig pk =
        (IsAccepted-of_verify proof blinded sig pk _ refl, verify_of_accepted proof blinded sig pk)

  -- The values that an honest proof is made of: the nonce, the challenge and its multiple of the key.
  record IsHonest (sk : B.Scalar) (blinded : B.G1) (pk : B.G2) (proof : DleqProof B) : Type 0 where
    t : B.Scalar
    c_sk : B.Scalar
    r1 : proof.r1 ≡ B.mult2 B.generator2 t
    r2 : proof.r2 ≡ B.mult1 blinded t
    challenge : compute_challenge B proof.r1 proof.r2 pk blinded (B.mult1 blinded sk) ≡ ok proof.c
    product : B.scalar_mul proof.c sk ≡ some c_sk
    sum : B.scalar_add t c_sk ≡ some proof.s

  IsHonest-of_prove :
      (random : Result Text) (sk : B.Scalar) (blinded : B.G1) (pk : B.G2) (proof : DleqProof B)
      → dleq_prove B random sk blinded pk ≡ ok proof
      → IsHonest sk blinded pk proof
  unfolding dleq_prove
  IsHonest-of_prove random sk blinded pk proof h =
      let (t, drawn, h1) = ok_of_bind (new_random_scalar B random) _ h in
      let (c, hashed, h2) = ok_of_bind (compute_challenge B _ _ pk blinded _) _ h1 in
      let (c_sk, product, h3) = ok_of_bind (require_ok (B.scalar_mul c sk) _) _ h2 in
      let (s, sum, h4) = ok_of_bind (require_ok (B.scalar_add t c_sk) _) _ h3 in
      record {
        t = t;
        c_sk = c_sk;
        r1 = ground arith;
        r2 = ground arith;
        challenge = ground arith;
        product = ground arith;
        sum = ground arith;
      }

  -- An honest proof for a blinded point of the subgroup is accepted for the signature that was made
  -- with the same key, under the public key of that key.
  pub dleq_verify-prove :
      IsGroup B
      → (random : Result Text) (sk : B.Scalar) (blinded : B.G1) (proof : DleqProof B)
      → B.in_g1 blinded ≡ true
      → dleq_prove B random sk blinded (pub_key B sk) ≡ ok proof
      → dleq_verify B proof blinded (B.mult1 blinded sk) (pub_key B sk) ≡ true
  unfolding pub_key
  dleq_verify-prove G random sk blinded proof member h =
      let a = IsHonest-of_prove random sk blinded (pub_key B sk) proof h in
      verify_of_accepted G proof blinded (B.mult1 blinded sk) (pub_key B sk) (record {
        challenge = a.challenge;
        in_g2 =
            cc
              (a.r1, G.mult2-add a.t a.c_sk proof.s a.sum, G.mult2-mul proof.c sk a.c_sk a.product);
        in_g1 = cc (
          a.r2,
          G.mult1-add blinded a.t a.c_sk proof.s member a.sum,
          G.mult1-mul blinded proof.c sk a.c_sk member a.product,
        );
      })
