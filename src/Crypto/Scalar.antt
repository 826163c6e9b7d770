-- ===== src/Crypto/Scalar.antt =====
-- pkg/crypto/scalar.go and serialize.go: what enters from outside is checked before it is used.
use blindvault.Base.{
  ℕ, ◌+◌, ◌*◌, Bool, true, false, Option, none, some, [], ◌∷◌, Text, bytes, length, leb, nat_eq,
  if◌then◌else◌,
}
use blindvault.Apperr.{Result, ok, err, plain}
use blindvault.Crypto.Blst.{Blst}

-- the integer that big-endian bytes stand for: new(big.Int).SetBytes(b)
be_onto : ℕ → Text → ℕ
be_onto n [] = n
be_onto n (b ∷ s) = be_onto (n * 256 + b) s

unfoldable pub be_value : Text → ℕ
unfolding be_onto
be_value s = be_onto 0 s

-- the order of the scalar field of BLS12-381
abbrev pub field_order : ℕ
field_order = 0x73eda753299d7d483339d80809a1d80553bda402fffe5bfeffffffff00000001

abbrev pub random_scalar_dst : Text
random_scalar_dst = bytes "BCIS-V1-INTERNAL-RANDOM"

all_zero : Text → Bool
all_zero [] = true
all_zero (b ∷ s) = let rest = all_zero s in if nat_eq b 0 then rest else false

module _ (B : Blst) where
  -- NewBlstScalarFromBytes
  unfoldable pub scalar_from_bytes : Text → Result B.Scalar
  scalar_from_bytes b =
      if nat_eq (length b) 32
      then (if leb field_order (be_value b)
          then err (plain (bytes "scalar is out of range"))
          else ok (B.from_bendian b))
      else err (plain (bytes "scalar must be 32 bytes"))

  -- NewBlstScalarWithDomain; nil is `none`
  unfoldable pub scalar_with_domain : Text → Text → Option B.Scalar
  scalar_with_domain b domain = B.hash_to b domain

  -- NewRandomScalar; the argument is what rand.Read made of the 48 bytes
  unfoldable pub new_random_scalar : Result Text → Result B.Scalar
  new_random_scalar (err e) = err e
  new_random_scalar (ok seed) = elim (B.hash_to seed random_scalar_dst) [
    | none ↦ err (plain (bytes "random scalar generation failed"))
    | some s ↦ ok s
  ]

  -- Scalar.IsZero
  unfoldable pub is_zero : B.Scalar → Bool
  unfolding all_zero
  is_zero s = all_zero (B.scalar_serialize s)

  -- Scalar.PubKey
  unfoldable pub pub_key : B.Scalar → B.G2
  pub_key s = B.mult2 B.generator2 s

  -- DeserializeG1
  unfoldable pub deserialize_g1 : Text → Result B.G1
  deserialize_g1 text = elim (B.uncompress1 text) [
    | none ↦ err (plain (bytes "invalid G1 point: deserialization failed"))
    | some p ↦ if B.in_g1 p then ok p else err (plain (bytes "G1 point not in correct subgroup"))
  ]

  -- DeserializeG2
  unfoldable pub deserialize_g2 : Text → Result B.G2
  deserialize_g2 text = elim (B.uncompress2 text) [
    | none ↦ err (plain (bytes "invalid G2 point: deserialization failed"))
    | some p ↦ if B.in_g2 p then ok p else err (plain (bytes "G2 point not in correct subgroup"))
  ]
