-- ===== src/Tests/IssueRuns.antt =====
-- The theorems on issuing, at the toy service.
use blindvault.Base.{◌≡◌, ◌↔◌, refl, arith, true, false, some, bytes}
use blindvault.Apperr.{ok}
use blindvault.Context.{check_context}
use blindvault.Crypto.Derive.{derive_signing_key, key_info}
use blindvault.Crypto.Dleq.{DleqProof, compute_challenge, dleq_prove, dleq_verify}
use blindvault.Crypto.Dleq.Completeness.{IsAccepted, dleq_verify_iff, dleq_verify-prove}
use blindvault.Crypto.Engine.{sign_blinded}
use blindvault.Crypto.Engine.RoundTrip.{deserialize_g1-compress1}
use blindvault.Crypto.Scalar.{pub_key, new_random_scalar}
use blindvault.Service.Config.Seed.{master_seed}
use blindvault.Service.Credentials.{IssueResult}
use blindvault.Service.Credentials.Issue.{read_blinded, issue_result, sign, issue}
use blindvault.Service.Credentials.Issue.Correctness.{IsIssued, issue-IsIssued}
use blindvault.Service.Credentials.Points.{hex_g1, decode-hex_g1}
use blindvault.Tests.ToyBlst.{
  one, two, mul, add, usable, hash, compress, toy_blst, toy_platform, toy_IsGroup, toy_IsBytes,
  toy_IsEncoding,
}
use blindvault.Tests.ToyCofactor.{pt, mult, inside, pack, cofactor_blst, cofactor_IsGroup}
use blindvault.Tests.ToyService.{seed, epoch, class, toy_config, toy_service, quiet}

abbrev toy_proof : DleqProof toy_blst
toy_proof = record { r1 = two; r2 = one; s = one; c = one }

proved : dleq_prove toy_blst (ok (bytes "odd")) two two (pub_key toy_blst two) ≡ ok toy_proof
unfolding dleq_prove pub_key new_random_scalar compute_challenge hash mul add usable compress
proved = refl

-- a proof for a point of the subgroup of a curve that has others
abbrev cofactor_proof : DleqProof cofactor_blst
cofactor_proof = record { r1 = two; r2 = pt one false; s = one; c = one }

cofactor_proved :
    dleq_prove cofactor_blst (ok (bytes "odd")) two (pt two false) (pub_key cofactor_blst two)
    ≡ ok cofactor_proof
unfolding dleq_prove pub_key new_random_scalar compute_challenge hash mul add usable compress mult
    pack
cofactor_proved = refl

member : inside (pt two false) ≡ true
unfolding inside
member = refl

dleq_verify-prove_example :
    dleq_verify cofactor_blst cofactor_proof
      (pt two false)
      (mult (pt two false) two)
      (pub_key cofactor_blst two)
    ≡ true
dleq_verify-prove_example =
    dleq_verify-prove cofactor_blst cofactor_IsGroup (ok (bytes "odd")) two (pt two false)
      cofactor_proof member cofactor_proved

dleq_verify_iff_example :
    (dleq_verify toy_blst toy_proof two one two ≡ true) ↔ IsAccepted toy_blst toy_proof two one two
dleq_verify_iff_example = dleq_verify_iff toy_blst toy_IsGroup toy_proof two one two

abbrev toy_result : IssueResult
toy_result = issue_result toy_platform toy_blst (mul two two) (pub_key toy_blst two) epoch toy_proof

key : derive_signing_key toy_platform toy_blst (some seed) epoch class ≡ ok two
unfolding derive_signing_key key_info hash
key = refl

opened : (master_seed toy_platform toy_config).0 ≡ ok seed
unfolding master_seed
opened = refl

read : read_blinded toy_platform toy_blst quiet (hex_g1 toy_blst two) class ≡ ok two
unfolding read_blinded check_context
read = ground (
  arith,
  decode-hex_g1 toy_blst toy_IsBytes two,
  deserialize_g1-compress1 toy_blst toy_IsEncoding two refl,
)

signed :
    sign toy_platform toy_blst quiet (ok (bytes "odd")) two epoch class (ok seed) ≡ ok toy_result
unfolding sign sign_blinded check_context
signed = rw key (rw proved refl)

issued :
    (issue toy_platform toy_blst quiet (ok (bytes "odd")) (hex_g1 toy_blst two) class toy_service).0
    ≡ ok toy_result
unfolding issue
issued = ground (arith, read, opened, signed)

issue-IsIssued_example :
    IsIssued toy_platform toy_blst quiet
      (hex_g1 toy_blst two)
      epoch
      class
      (master_seed toy_platform toy_config).0
      toy_result
issue-IsIssued_example =
    issue-IsIssued toy_platform toy_blst toy_IsGroup quiet (ok (bytes "odd")) (hex_g1 toy_blst two)
      class toy_service toy_result issued
