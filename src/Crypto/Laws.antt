-- ===== src/Crypto/Laws.antt =====
-- What the documentation of blst promises, by the groups of its operations that the program uses.
-- A theorem that rests on one of these takes it as an argument.
use blindvault.Base.{◌<◌, ◌≡◌, ◌↔◌, true, false, some, Text, is_empty, length}
use blindvault.Crypto.Blst.{Blst}
use blindvault.Crypto.Scalar.{is_zero, be_value, field_order}

-- What the group operations promise: the subgroups of prime order are modules over the scalar field,
-- multiplications of any point of the first curve commute, and the flag of a product or a sum of
-- scalars only reports that the result is a usable scalar.
pub record IsGroup (B : Blst) : Type 0 where
  pub mult1_comm : (p : B.G1) (a b : B.Scalar) → B.mult1 (B.mult1 p a) b ≡ B.mult1 (B.mult1 p b) a
  pub mult1_inverse :
      (p : B.G1) (a : B.Scalar)
      → B.in_g1 p ≡ true
      → is_zero B a ≡ false
      → B.mult1 (B.mult1 p a) (B.scalar_inverse a) ≡ p
  pub mult1-mul :
      (p : B.G1) (a b c : B.Scalar)
      → B.in_g1 p ≡ true
      → B.scalar_mul a b ≡ some c
      → B.mult1 p c ≡ B.mult1 (B.mult1 p b) a
  pub mult2-mul :
      (a b c : B.Scalar)
      → B.scalar_mul a b ≡ some c
      → B.mult2 B.generator2 c ≡ B.mult2 (B.mult2 B.generator2 b) a
  pub mult1-add :
      (p : B.G1) (a b c : B.Scalar)
      → B.in_g1 p ≡ true
      → B.scalar_add a b ≡ some c
      → B.mult1 p c ≡ B.add1 (B.mult1 p a) (B.mult1 p b)
  pub mult2-add :
      (a b c : B.Scalar)
      → B.scalar_add a b ≡ some c
      → B.mult2 B.generator2 c ≡ B.add2 (B.mult2 B.generator2 a) (B.mult2 B.generator2 b)
  pub scalar_eq_iff : (a b : B.Scalar) → (B.scalar_eq a b ≡ true) ↔ (a ≡ b)
  pub eq1_iff : (p q : B.G1) → (B.eq1 p q ≡ true) ↔ (p ≡ q)
  pub eq2_iff : (p q : B.G2) → (B.eq2 p q ≡ true) ↔ (p ≡ q)

-- What hashing to scalars and the bytes of a scalar promise.
pub record IsField (B : Blst) : Type 0 where
  pub hash_to_nonzero :
      (m dst : Text) (s : B.Scalar) → B.hash_to m dst ≡ some s → is_zero B s ≡ false
  pub length-scalar_serialize : (s : B.Scalar) → length (B.scalar_serialize s) ≡ 32
  pub scalar_serialize-lt : (s : B.Scalar) → be_value (B.scalar_serialize s) < field_order
  pub from_bendian-scalar_serialize : (s : B.Scalar) → B.from_bendian (B.scalar_serialize s) ≡ s

-- What the pairing promises: `FinalVerify` compares pairings, which are bilinear and, at the
-- generator and on the subgroup, injective. A point of the cofactor's order pairs to one.
pub record IsPairing (B : Blst) : Type 1 where
  pub Target : Type 0
  pub pair : B.G2 → B.G1 → Target
  pub power : Target → B.Scalar → Target
  pub final_verify_iff :
      (q q' : B.G2) (p p' : B.G1)
      → (B.final_verify (B.miller_loop q p) (B.miller_loop q' p') ≡ true) ↔ (pair q p ≡ pair q' p')
  pub pair-mult1 : (q : B.G2) (p : B.G1) (a : B.Scalar) → pair q (B.mult1 p a) ≡ power (pair q p) a
  pub pair-mult2 : (q : B.G2) (p : B.G1) (a : B.Scalar) → pair (B.mult2 q a) p ≡ power (pair q p) a
  pub pair_injective :
      (p p' : B.G1)
      → B.in_g1 p ≡ true
      → B.in_g1 p' ≡ true
      → pair B.generator2 p ≡ pair B.generator2 p'
      → p ≡ p'

-- What the encodings promise.
pub record IsEncoding (B : Blst) : Type 0 where
  pub uncompress1-compress1 : (p : B.G1) → B.uncompress1 (B.compress1 p) ≡ some p
  pub uncompress2-compress2 : (q : B.G2) → B.uncompress2 (B.compress2 q) ≡ some q
  pub in_g1-mult1 : (p : B.G1) (a : B.Scalar) → B.in_g1 p ≡ true → B.in_g1 (B.mult1 p a) ≡ true
  pub in_g2-mult2 : (a : B.Scalar) → B.in_g2 (B.mult2 B.generator2 a) ≡ true
  pub in_g1-hash_to_g1 : (m dst : Text) → B.in_g1 (B.hash_to_g1 m dst) ≡ true
  pub compress1_nonempty : (p : B.G1) → is_empty (B.compress1 p) ≡ false
  pub compress2_nonempty : (q : B.G2) → is_empty (B.compress2 q) ≡ false
