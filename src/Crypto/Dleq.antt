-- ===== src/Crypto/Dleq.antt =====
-- pkg/crypto/dleq.go: the proof that the blind signature was made with the key of the public key.
pub mod Completeness
use blindvault.Base.{
  Bool, false, not, ◌++◌, Option, none, some, Text, bytes, is_empty, if◌then◌else◌,
}
use blindvault.Apperr.{Result, ok, err, plain, ◌>>=◌}
use blindvault.Crypto.Blst.{Blst}
use blindvault.Crypto.Scalar.{new_random_scalar}

abbrev pub dleq_proof_dst : Text
dleq_proof_dst = bytes "BCIS-V1-DLEQ-CHALLENGE"

-- DLEQProof
pub record DleqProof (B : Blst) : Type 0 where
  pub r1 : B.G2
  pub r2 : B.G1
  pub s : B.Scalar
  pub c : B.Scalar

-- the second result of a scalar operation, tested by `if !ok`
abbrev pub require_ok : {A : Type 0} → Option A → Text → Result A
require_ok none t = err (plain t)
require_ok (some a) t = ok a

-- `if comp == nil`; blst returns nil or 48 or 96 bytes
abbrev not_nil : Text → Text → Result Text
not_nil comp t = if is_empty comp then err (plain t) else ok comp

module _ (B : Blst) where
  unfoldable pub compute_challenge : B.G2 → B.G1 → B.G2 → B.G1 → B.G1 → Result B.Scalar
  compute_challenge r1 r2 pk bprime cprime = do
    r1_comp ← not_nil (B.compress2 r1) (bytes "R1 compress returned nil")
    r2_comp ← not_nil (B.compress1 r2) (bytes "R2 compress returned nil")
    pk_comp ← not_nil (B.compress2 pk) (bytes "PK compress returned nil")
    b_comp ← not_nil (B.compress1 bprime) (bytes "Bprime compress returned nil")
    c_comp ← not_nil (B.compress1 cprime) (bytes "Cprime compress returned nil")
    require_ok (B.hash_to (r1_comp ++ (r2_comp ++ (pk_comp ++ (b_comp ++ c_comp)))) dleq_proof_dst)
        (bytes "challenge hash-to-scalar failed")

  -- DLEQProve; the first argument is the outcome of rand.Read in NewRandomScalar
  unfoldable pub dleq_prove : Result Text → B.Scalar → B.G1 → B.G2 → Result (DleqProof B)
  dleq_prove random sk blinded pk = do
    t ← new_random_scalar B random
    let r1 = B.mult2 B.generator2 t
    let r2 = B.mult1 blinded t
    c ← compute_challenge r1 r2 pk blinded (B.mult1 blinded sk)
    c_sk ← require_ok (B.scalar_mul c sk) (bytes "scalar multiplication failed")
    s ← require_ok (B.scalar_add t c_sk) (bytes "scalar addition failed")
    ok (record { r1 = r1; r2 = r2; s = s; c = c })

  -- the equations of DLEQVerify, once the challenge is recomputed
  dleq_equations : DleqProof B → B.G1 → B.G1 → B.G2 → Bool
  dleq_equations proof blinded sig pk =
      if not (B.eq2 (B.mult2 B.generator2 proof.s) (B.add2 proof.r1 (B.mult2 pk proof.c)))
      then false
      else B.eq1 (B.mult1 blinded proof.s) (B.add1 proof.r2 (B.mult1 sig proof.c))

  -- DLEQVerify
  unfoldable pub dleq_verify : DleqProof B → B.G1 → B.G1 → B.G2 → Bool
  unfolding dleq_equations
  dleq_verify proof blinded sig pk = elim (compute_challenge proof.r1 proof.r2 pk blinded sig) [
    | err e ↦ false
    | ok c' ↦ if not (B.scalar_eq proof.c c') then false else dleq_equations proof blinded sig pk
  ]
