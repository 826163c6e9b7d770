-- ===== src/Crypto/Blst.antt =====
-- The code that pkg/crypto calls and this repository does not hold: the blst bindings, and
-- memguard, SHA-256, HKDF. Each is an argument of the definitions that call it.
-- A point in affine and in projective form is one value here, since the program only converts.
use blindvault.Base.{ℕ, Bool, Option, Text}
use blindvault.Apperr.{Result}

-- github.com/supranational/blst/bindings/go
pub record Blst : Type 1 where
  pub Scalar : Type 0
  pub G1 : Type 0
  pub G2 : Type 0
  pub Fp12 : Type 0
  -- `a.Mul(b)` and `a.Add(b)`; `none` where the second result is false
  pub scalar_mul : Scalar → Scalar → Option Scalar
  pub scalar_add : Scalar → Scalar → Option Scalar
  pub scalar_inverse : Scalar → Scalar
  pub scalar_eq : Scalar → Scalar → Bool
  -- `s.HashTo(msg, dst)`; `none` where it returns false
  pub hash_to : Text → Text → Option Scalar
  pub scalar_serialize : Scalar → Text
  pub from_bendian : Text → Scalar
  pub mult1 : G1 → Scalar → G1
  pub add1 : G1 → G1 → G1
  pub eq1 : G1 → G1 → Bool
  pub compress1 : G1 → Text
  pub serialize1 : G1 → Text
  -- `pt.Uncompress(data)`; `none` for nil
  pub uncompress1 : Text → Option G1
  pub in_g1 : G1 → Bool
  pub hash_to_g1 : Text → Text → G1
  pub generator2 : G2
  pub mult2 : G2 → Scalar → G2
  pub add2 : G2 → G2 → G2
  pub eq2 : G2 → G2 → Bool
  pub compress2 : G2 → Text
  pub uncompress2 : Text → Option G2
  pub in_g2 : G2 → Bool
  pub miller_loop : G2 → G1 → Fp12
  pub final_verify : Fp12 → Fp12 → Bool
  -- `sig.Verify(sigGroupcheck, pk, pkValidate, msg, dst)`
  pub sig_verify : G1 → Bool → G2 → Bool → Text → Text → Bool

-- github.com/awnumar/memguard, crypto/sha256 and crypto/hkdf.
pub record Platform : Type 1 where
  pub Enclave : Type 0
  -- memguard.NewEnclave, and Enclave.Open with the bytes of the buffer that it returns
  pub new_enclave : Text → Enclave
  pub open_enclave : Enclave → Result Text
  pub sha256 : Text → Text
  -- hkdf.Key(sha256.New, secret, salt, info, length)
  pub hkdf_key : Text → Text → Text → ℕ → Result Text
