-- ===== src/Tests/ToyCofactor.antt =====
-- A first group with points outside the subgroup, as BLS12-381 has them: a toy point with a part of
-- order two beside it. The laws of Crypto.Laws hold, and the subgroup is not the whole curve.
use blindvault.Base.{
  ℕ, ◌+◌, ◌-◌, ◌≡◌, ◌≢◌, ◌↔◌, refl, Bool, true, false, not, Option, none, some, [], ◌∷◌, ◌++◌, Text,
  length, nat_eq, leb, ◌&&◌, if◌then◌else◌, arith,
}
use blindvault.Crypto.Blst.{Blst}
use blindvault.Crypto.Engine.{verify_point}
use blindvault.Crypto.Laws.{IsGroup, IsPairing, IsEncoding}
use blindvault.Crypto.Scalar.{is_zero, be_value, pub_key}
use blindvault.Tests.ToyBlst.{
  F3, nought, one, two, mul, add, eq, digit, of_digit, zeros, serialize, usable, toy_blst,
  toy_IsGroup, toy_IsEncoding,
}

pub data Point : Type 0 where
  pt : F3 → Bool → Point

abbrev odd : F3 → Bool
odd one = true
odd _ = false

abbrev differ : Bool → Bool → Bool
differ true b = not b
differ false b = b

unfoldable pub mult : Point → F3 → Point
mult (pt x t) a = pt (mul x a) (t && odd a)

unfoldable pub plus : Point → Point → Point
plus (pt x t) (pt y u) = pt (add x y) (differ t u)

unfoldable pub same : Point → Point → Bool
same (pt x t) (pt y u) = eq x y && not (differ t u)

unfoldable pub inside : Point → Bool
inside (pt x t) = not t

unfoldable pub code : Point → ℕ
code (pt x true) = digit x + 3
code (pt x false) = digit x

unfoldable pub of_code : ℕ → Point
of_code n = if leb 3 n then pt (of_digit (n - 3)) true else pt (of_digit n) false

unfoldable pub pack : Point → Text
unfolding zeros
pack p = zeros 47 ++ (code p ∷ [])

unfoldable pub unpack : Text → Option Point
unpack s = if nat_eq (length s) 48 && leb (be_value s) 5 then some (of_code (be_value s)) else none

unfoldable pub loop : F3 → Point → F3
loop q (pt x t) = mul q x

abbrev pub cofactor_blst : Blst
cofactor_blst = record {
  Scalar = F3;
  G1 = Point;
  G2 = F3;
  Fp12 = F3;
  scalar_mul = toy_blst.scalar_mul;
  scalar_add = toy_blst.scalar_add;
  scalar_inverse = toy_blst.scalar_inverse;
  scalar_eq = toy_blst.scalar_eq;
  hash_to = toy_blst.hash_to;
  scalar_serialize = toy_blst.scalar_serialize;
  from_bendian = toy_blst.from_bendian;
  mult1 = mult;
  add1 = plus;
  eq1 = same;
  compress1 = pack;
  serialize1 = pack;
  uncompress1 = unpack;
  in_g1 = inside;
  hash_to_g1 = λ m dst. pt two false;
  generator2 = toy_blst.generator2;
  mult2 = toy_blst.mult2;
  add2 = toy_blst.add2;
  eq2 = toy_blst.eq2;
  compress2 = toy_blst.compress2;
  uncompress2 = toy_blst.uncompress2;
  in_g2 = toy_blst.in_g2;
  miller_loop = loop;
  final_verify = toy_blst.final_verify;
  sig_verify = λ sig group_check pk validate msg dst.
      inside sig && eq (loop one sig) (loop pk (pt two false));
}

same_iff : (p q : Point) → (same p q ≡ true) ↔ (p ≡ q)
unfolding same eq
same_iff (pt x t) (pt y u) = (λ h. ground arith, λ h. ground arith)

mult_comm : (p : Point) (a b : F3) → mult (mult p a) b ≡ mult (mult p b) a
unfolding mult mul
mult_comm (pt x t) a b = ground arith

mult_inverse :
    (p : Point) (a : F3) → inside p ≡ true → is_zero cofactor_blst a ≡ false → mult (mult p a) a ≡ p
unfolding mult mul inside is_zero serialize zeros
mult_inverse (pt x t) a h n = ground arith

loop-mult : (q : F3) (p : Point) (a : F3) → loop q (mult p a) ≡ mul (loop q p) a
unfolding loop mult mul
loop-mult q (pt x t) a = ground arith

loop-mul : (q : F3) (p : Point) (a : F3) → loop (mul q a) p ≡ mul (loop q p) a
unfolding loop mul
loop-mul q (pt x t) a = ground arith

loop_injective : (p q : Point) → inside p ≡ true → inside q ≡ true → loop one p ≡ loop one q → p ≡ q
unfolding loop inside mul
loop_injective (pt x t) (pt y u) hp hq h = ground arith

mult-mul :
    (p : Point) (a b c : F3)
    → inside p ≡ true
    → usable (mul a b) ≡ some c
    → mult p c ≡ mult (mult p b) a
unfolding mult mul inside usable
mult-mul (pt x t) a b c h m = ground arith

mult-plus :
    (p : Point) (a b c : F3)
    → inside p ≡ true
    → usable (add a b) ≡ some c
    → mult p c ≡ plus (mult p a) (mult p b)
unfolding mult plus mul add inside usable
mult-plus (pt x t) a b c h m = ground arith

pub cofactor_IsGroup : IsGroup cofactor_blst
cofactor_IsGroup = record {
  mult1_comm = mult_comm;
  mult1_inverse = mult_inverse;
  mult1-mul = mult-mul;
  mult2-mul = toy_IsGroup.mult2-mul;
  mult1-add = mult-plus;
  mult2-add = toy_IsGroup.mult2-add;
  scalar_eq_iff = toy_IsGroup.scalar_eq_iff;
  eq1_iff = same_iff;
  eq2_iff = toy_IsGroup.eq2_iff;
}

pub cofactor_IsPairing : IsPairing cofactor_blst
cofactor_IsPairing = record {
  Target = F3;
  pair = loop;
  power = mul;
  final_verify_iff = λ q q' p p'. toy_IsGroup.eq2_iff (loop q p) (loop q' p');
  pair-mult1 = loop-mult;
  pair-mult2 = λ q p a. loop-mul q p a;
  pair_injective = loop_injective;
}

unpack-pack : (p : Point) → unpack (pack p) ≡ some p
unfolding pack unpack code of_code of_digit be_value
unpack-pack (pt nought true) = refl
unpack-pack (pt one true) = refl
unpack-pack (pt two true) = refl
unpack-pack (pt nought false) = refl
unpack-pack (pt one false) = refl
unpack-pack (pt two false) = refl

inside-mult : (p : Point) (a : F3) → inside p ≡ true → inside (mult p a) ≡ true
unfolding inside mult
inside-mult (pt x t) a h = ground arith

pub cofactor_IsEncoding : IsEncoding cofactor_blst
unfolding pack inside
cofactor_IsEncoding = record {
  uncompress1-compress1 = unpack-pack;
  uncompress2-compress2 = toy_IsEncoding.uncompress2-compress2;
  in_g1-mult1 = inside-mult;
  in_g2-mult2 = toy_IsEncoding.in_g2-mult2;
  in_g1-hash_to_g1 = λ m dst. refl;
  compress1_nonempty = λ p. refl;
  compress2_nonempty = toy_IsEncoding.compress2_nonempty;
}

-- VerifyPoint accepts a signature with a point of order two added, which is not the multiple of the
-- message point.
accepted_outside :
    verify_point cofactor_blst (pt one true) (pt two false) (pub_key cofactor_blst two) ≡ true
unfolding verify_point pub_key loop mul eq
accepted_outside = refl

not_the_multiple : pt one true ≢ mult (pt two false) two
unfolding mult mul
not_the_multiple h = ground arith
