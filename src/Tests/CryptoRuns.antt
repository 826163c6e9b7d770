-- ===== src/Tests/CryptoRuns.antt =====
-- The theorems on the engine and on the encodings, at the toy groups.
use blindvault.Base.{◌≡◌, ◌↔◌, refl, arith, true, false, [], ◌∷◌, bytes}
use blindvault.Apperr.{ok, ◌>>=◌}
use blindvault.Crypto.Engine.{blind_message, sign_blinded, unblind_signature, verify_point}
use blindvault.Crypto.Engine.RoundTrip.{unblind-sign-blind, new_random_scalar_nonzero}
use blindvault.Crypto.Engine.Verification.{verify_point_iff}
use blindvault.Crypto.Scalar.{is_zero, pub_key, new_random_scalar}
use blindvault.Crypto.Separation.{nullifier_input_injective, NoNul}
use blindvault.Tests.ToyBlst.{one, two, hash, serialize, zeros, toy_blst, toy_IsField}
use blindvault.Tests.ToyCofactor.{
  Point, pt, mult, inside, cofactor_blst, cofactor_IsGroup, cofactor_IsPairing, cofactor_IsEncoding,
}
use blindvault.Tests.ToyService.{class, epoch}
use blindvault.Validation
use blindvault.Validation.Formats.{class-NoNul, epoch-NoNul}
use blindvault.Validation.Hex.{decode_string, encode_to_string, decode_string-encode}

nonzero : is_zero toy_blst two ≡ false
unfolding is_zero serialize zeros
nonzero = refl

-- a point of the subgroup of a curve that has others
abbrev point : Point
point = pt one false

member : inside point ≡ true
unfolding inside
member = refl

other_member : inside (pt two false) ≡ true
unfolding inside
other_member = refl

cofactor_nonzero : is_zero cofactor_blst two ≡ false
unfolding is_zero serialize zeros
cofactor_nonzero = refl

unblind-sign-blind_example :
    (do
      blinded ← blind_message cofactor_blst point two
      sig ← sign_blinded cofactor_blst blinded two
      unblind_signature cofactor_blst sig two)
    ≡ sign_blinded cofactor_blst point two
unblind-sign-blind_example =
    unblind-sign-blind cofactor_blst cofactor_IsGroup point two two member cofactor_nonzero

drawn : new_random_scalar toy_blst (ok (bytes "odd")) ≡ ok two
unfolding new_random_scalar hash
drawn = refl

new_random_scalar_nonzero_example : is_zero toy_blst two ≡ false
new_random_scalar_nonzero_example =
    new_random_scalar_nonzero toy_blst toy_IsField (ok (bytes "odd")) two drawn

verify_point_iff_example :
    (verify_point cofactor_blst point (pt two false) (pub_key cofactor_blst two) ≡ true)
    ↔ (point ≡ mult (pt two false) two)
verify_point_iff_example =
    verify_point_iff cofactor_blst cofactor_IsPairing cofactor_IsEncoding point (pt two false) two
      member other_member

epoch_free : NoNul epoch
unfolding Validation.epoch Validation.is_digit
epoch_free = epoch-NoNul epoch (refl)

class_free : NoNul class
unfolding Validation.class Validation.all_chars Validation.is_class_char Validation.is_digit
class_free = class-NoNul class (refl)

nullifier_input_injective_example : (epoch ≡ epoch) × (class ≡ class) × (bytes "sig" ≡ bytes "sig")
nullifier_input_injective_example =
    nullifier_input_injective epoch class (bytes "sig") epoch class (bytes "sig") epoch_free
      class_free epoch_free class_free refl

decode_string-encode_example : decode_string (encode_to_string (254 ∷ 7 ∷ [])) ≡ ok (254 ∷ 7 ∷ [])
decode_string-encode_example = decode_string-encode (254 ∷ 7 ∷ []) (omega arith, (omega arith, tt))
