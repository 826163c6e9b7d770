-- ===== src/Tests/ToyBlst.antt =====
-- Instances of the blst and platform parameters that compute: the groups and the scalars are the
-- field of three elements. They show that the laws of Crypto.Laws can hold together; ToyCofactor has
-- points outside the subgroup as well.
use blindvault.Base.{
  ℕ, zero, suc, ◌%◌, ◌≡◌, refl, Bool, true, false, Option, none, some, [], ◌∷◌, ◌++◌, Text,
  is_empty, length, nat_eq, leb, ◌&&◌, All, arith, ◌<◌, ◌↔◌, if◌then◌else◌,
}
use blindvault.Apperr.{ok}
use blindvault.Crypto.Blst.{Blst, Platform}
use blindvault.Crypto.Laws.{IsGroup, IsField, IsPairing, IsEncoding}
use blindvault.Crypto.Scalar.{is_zero, be_value, field_order}
use blindvault.Service.Credentials.Points.{IsBytes}

-- the field of three elements
pub data F3 : Type 0 where
  nought one two : F3

unfoldable pub mul : F3 → F3 → F3
mul nought b = nought
mul one b = b
mul two nought = nought
mul two one = two
mul two two = one

unfoldable pub add : F3 → F3 → F3
add nought b = b
add one nought = one
add one one = two
add one two = nought
add two nought = two
add two one = nought
add two two = one

unfoldable pub eq : F3 → F3 → Bool
eq nought nought = true
eq one one = true
eq two two = true
eq _ _ = false

-- blst reports a result of zero as a failure
unfoldable pub usable : F3 → Option F3
usable nought = none
usable one = some one
usable two = some two

abbrev pub digit : F3 → ℕ
digit nought = 0
digit one = 1
digit two = 2

unfoldable pub of_digit : ℕ → F3
of_digit n = if nat_eq n 0 then nought else if nat_eq n 1 then one else two

unfoldable pub zeros : ℕ → Text
zeros zero = []
zeros (suc n) = 0 ∷ zeros n

unfoldable pub serialize : F3 → Text
unfolding zeros
serialize a = zeros 31 ++ (digit a ∷ [])

unfoldable pub compress : F3 → Text
unfolding zeros
compress a = zeros 47 ++ (digit a ∷ [])

unfoldable pub uncompress : Text → Option F3
uncompress s =
    if nat_eq (length s) 48 && leb (be_value s) 2 then some (of_digit (be_value s)) else none

unfoldable pub hash : Text → Text → Option F3
hash m dst = if is_empty m then none else if nat_eq (length m % 2) 0 then some one else some two

abbrev pub toy_blst : Blst
toy_blst = record {
  Scalar = F3;
  G1 = F3;
  G2 = F3;
  Fp12 = F3;
  scalar_mul = λ a b. usable (mul a b);
  scalar_add = λ a b. usable (add a b);
  scalar_inverse = λ a. a;
  scalar_eq = eq;
  hash_to = hash;
  scalar_serialize = serialize;
  from_bendian = λ s. of_digit (be_value s);
  mult1 = mul;
  add1 = add;
  eq1 = eq;
  compress1 = compress;
  serialize1 = compress;
  uncompress1 = uncompress;
  in_g1 = λ p. true;
  hash_to_g1 = λ m dst. two;
  generator2 = one;
  mult2 = mul;
  add2 = add;
  eq2 = eq;
  compress2 = compress;
  uncompress2 = uncompress;
  in_g2 = λ q. true;
  miller_loop = mul;
  final_verify = eq;
  sig_verify = λ sig group_check pk validate msg dst. eq sig (mul pk two);
}

abbrev pub toy_platform : Platform
toy_platform = record {
  Enclave = Text;
  new_enclave = λ s. s;
  open_enclave = λ s. ok s;
  sha256 = λ s. s;
  hkdf_key = λ secret salt info n. ok info;
}

eq_iff : (a b : F3) → (eq a b ≡ true) ↔ (a ≡ b)
unfolding eq
eq_iff a b = (λ h. ground arith, λ h. ground arith)

mul_comm : (p a b : F3) → mul (mul p a) b ≡ mul (mul p b) a
unfolding mul
mul_comm p a b = ground arith

mul_assoc : (p a b : F3) → mul p (mul a b) ≡ mul (mul p b) a
unfolding mul
mul_assoc p a b = ground arith

mul_inner : (q p a : F3) → mul q (mul p a) ≡ mul (mul q p) a
unfolding mul
mul_inner q p a = ground arith

mul_outer : (q a p : F3) → mul (mul q a) p ≡ mul (mul q p) a
unfolding mul
mul_outer q a p = ground arith

serialize_lt : (s : F3) → be_value (serialize s) < field_order
unfolding serialize be_value
serialize_lt nought = omega arith
serialize_lt one = omega arith
serialize_lt two = omega arith

of_digit-serialize : (s : F3) → of_digit (be_value (serialize s)) ≡ s
unfolding serialize be_value of_digit
of_digit-serialize nought = refl
of_digit-serialize one = refl
of_digit-serialize two = refl

pub toy_IsGroup : IsGroup toy_blst
unfolding mul add eq usable serialize zeros is_zero
toy_IsGroup = record {
  mult1_comm = mul_comm;
  mult1_inverse = λ p a _ h. ground arith;
  mult1-mul = λ p a b c _ h. ground arith;
  mult2-mul = λ a b c h. ground arith;
  mult1-add = λ p a b c _ h. ground arith;
  mult2-add = λ a b c h. ground arith;
  scalar_eq_iff = eq_iff;
  eq1_iff = eq_iff;
  eq2_iff = eq_iff;
}

pub toy_IsPairing : IsPairing toy_blst
unfolding mul eq
toy_IsPairing = record {
  Target = F3;
  pair = mul;
  power = mul;
  final_verify_iff = λ q q' p p'. eq_iff (mul q p) (mul q' p');
  pair-mult1 = λ q p a. mul_inner q p a;
  pair-mult2 = λ q p a. mul_outer q a p;
  pair_injective = λ p p' _ _ h. ground arith;
}

pub toy_IsField : IsField toy_blst
unfolding hash serialize zeros is_zero be_value of_digit
toy_IsField = record {
  hash_to_nonzero = λ m dst s h. ground arith;
  length-scalar_serialize = λ s. refl;
  scalar_serialize-lt = λ s. serialize_lt s;
  from_bendian-scalar_serialize = λ s. of_digit-serialize s;
}

uncompress-compress : (p : F3) → uncompress (compress p) ≡ some p
unfolding compress uncompress be_value of_digit
uncompress-compress nought = refl
uncompress-compress one = refl
uncompress-compress two = refl

pub toy_IsEncoding : IsEncoding toy_blst
unfolding compress
toy_IsEncoding = record {
  uncompress1-compress1 = uncompress-compress;
  uncompress2-compress2 = uncompress-compress;
  in_g1-mult1 = λ p a h. refl;
  in_g2-mult2 = λ a. refl;
  in_g1-hash_to_g1 = λ m dst. refl;
  compress1_nonempty = λ p. refl;
  compress2_nonempty = λ p. refl;
}

zeros_bytes : (n d : ℕ) → d < 256 → All (λ b. b < 256) (zeros n ++ (d ∷ []))
unfolding zeros
zeros_bytes zero d h = (h, tt)
zeros_bytes (suc n) d h = (omega arith, zeros_bytes n d h)

digit_lt : (p : F3) → digit p < 256
digit_lt nought = omega arith
digit_lt one = omega arith
digit_lt two = omega arith

pub toy_IsBytes : IsBytes toy_blst
unfolding compress serialize
toy_IsBytes = record {
  compress1_bytes = λ p. zeros_bytes 47 (digit p) (digit_lt p);
  compress2_bytes = λ q. zeros_bytes 47 (digit q) (digit_lt q);
  serialize_bytes = λ s. zeros_bytes 31 (digit s) (digit_lt s);
}
