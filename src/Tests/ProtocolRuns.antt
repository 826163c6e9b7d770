-- ===== src/Tests/ProtocolRuns.antt =====
-- The protocol from end to end, at the toy server and a client with an empty state.
use blindvault.Base.{
  ◌≡◌, refl, arith, true, none, some, [], Text, bytes, lookup, insert, ap, ◌∙◌, Text_discrete,
}
use blindvault.Apperr.{Result, ok}
use blindvault.Api.Handlers.Consume.{redemption}
use blindvault.Client.{BlindResult, blind, unblind, read_point, redeem_request}
use blindvault.Client.Protocol.{redeem-unblind-issue-blind}
use blindvault.Client.State.{ClientState, Disk, pending, get, store}
use blindvault.Context.{check_context}
use blindvault.Crypto.Derive.{derive_signing_key, key_info}
use blindvault.Crypto.Dleq.{DleqProof, compute_challenge, dleq_prove}
use blindvault.Crypto.Engine.{hash_to_curve, blind_message, sign_blinded, unblind_signature}
use blindvault.Crypto.Engine.RoundTrip.{deserialize_g1-compress1, scalar_from_bytes-serialize}
use blindvault.Crypto.Scalar.{pub_key, new_random_scalar}
use blindvault.Service.Config.{is_epoch_supported}
use blindvault.Service.Config.Seed.{master_seed}
use blindvault.Service.Credentials.{IssueResult, Service, accepted}
use blindvault.Service.Credentials.Consume.{admit, consume}
use blindvault.Service.Credentials.Issue.{read_blinded, issue_result, sign, issue}
use blindvault.Service.Credentials.Points.{hex_g1, decode-hex_g1}
use blindvault.Storage.Memory.{memory_store, check_and_store, marked}
use blindvault.Storage.RevocationMemory
use blindvault.Tests.ToyBlst.{
  one, two, mul, add, usable, hash, compress, toy_blst, toy_platform, toy_IsGroup, toy_IsField,
  toy_IsPairing, toy_IsEncoding, toy_IsBytes,
}
use blindvault.Tests.ToyService.{seed, epoch, class, toy_config, toy_service, quiet}

abbrev disk : Disk
disk s = none

abbrev pub entropy : Result Text
entropy = ok (bytes "odd")

abbrev blinds_to : BlindResult toy_blst
blinds_to = record { blinded = one; witness = two; request_id = bytes "7f" }

abbrev client' : ClientState
client' = (blind toy_blst disk (some (bytes "DST")) entropy (bytes "7f") (bytes "m") []).1

pub blinded :
    (blind toy_blst disk (some (bytes "DST")) entropy (bytes "7f") (bytes "m") []).0 ≡ ok blinds_to
unfolding blind hash_to_curve new_random_scalar blind_message hash mul store
blinded = refl

abbrev pub toy_proof : DleqProof toy_blst
toy_proof = record { r1 = two; r2 = two; s = one; c = one }

pub proved : dleq_prove toy_blst entropy two one (pub_key toy_blst two) ≡ ok toy_proof
unfolding dleq_prove pub_key new_random_scalar compute_challenge hash mul add usable compress
proved = refl

abbrev pub toy_result : IssueResult
toy_result = issue_result toy_platform toy_blst two (pub_key toy_blst two) epoch toy_proof

key : derive_signing_key toy_platform toy_blst (some seed) epoch class ≡ ok two
unfolding derive_signing_key key_info hash
key = refl

pub opened : (master_seed toy_platform toy_config).0 ≡ ok seed
unfolding master_seed
opened = refl

pub read : read_blinded toy_platform toy_blst quiet (hex_g1 toy_blst one) class ≡ ok one
unfolding read_blinded check_context
read = ground (
  arith,
  decode-hex_g1 toy_blst toy_IsBytes one,
  deserialize_g1-compress1 toy_blst toy_IsEncoding one refl,
)

pub signed : sign toy_platform toy_blst quiet entropy one epoch class (ok seed) ≡ ok toy_result
unfolding sign sign_blinded check_context mul
signed = rw key (rw proved refl)

abbrev pub later : Service toy_platform memory_store RevocationMemory.memory_store
later = (issue toy_platform toy_blst quiet entropy (hex_g1 toy_blst one) class toy_service).1

pub issued :
    (issue toy_platform toy_blst quiet entropy (hex_g1 toy_blst one) class toy_service).0
    ≡ ok toy_result
unfolding issue
issued = ground (arith, read, opened, signed)

pub received : read_point toy_blst toy_result.blind_signature ≡ ok two
unfolding read_point issue_result
received = ground (
  arith,
  decode-hex_g1 toy_blst toy_IsBytes two,
  deserialize_g1-compress1 toy_blst toy_IsEncoding two refl,
)

unblinded : (unblind toy_blst disk (bytes "7f") two client').0 ≡ ok one
unfolding unblind blind hash_to_curve new_random_scalar blind_message hash mul store get pending
    lookup insert unblind_signature Text_discrete
unblinded = ground (arith, scalar_from_bytes-serialize toy_blst toy_IsField two)

unchanged : later ≡ toy_service
unfolding issue master_seed
unchanged = ground (arith, read)

supported : admit toy_platform toy_blst 9 class epoch toy_service ≡ ok none
unfolding admit is_epoch_supported RevocationMemory.is_revoked Text_discrete lookup
supported = refl

pub admitted : admit toy_platform toy_blst 9 class epoch later ≡ ok none
admitted = ap (admit toy_platform toy_blst 9 class epoch) unchanged ∙ supported

new :
    (k : Text)
    → (memory_store.check_and_store
        (record { done = check_context quiet 1; now = 9 })
        k
        toy_service.store).0
      ≡ ok true
unfolding check_and_store marked lookup check_context
new k = refl

pub fresh :
    (k : Text)
    → (memory_store.check_and_store
        (record { done = check_context quiet 1; now = 9 })
        k
        later.store).0
      ≡ ok true
fresh k =
    ap
      (λ s.
        (memory_store.check_and_store (record { done = check_context quiet 1; now = 9 }) k
          s.store).0)
      unchanged
    ∙ new k

pub live : check_context quiet 0 ≡ none
unfolding check_context
live = refl

redeem-unblind-issue-blind_example :
    (consume toy_platform toy_blst quiet 9
      (redemption (redeem_request toy_blst one two class epoch))
      later).0
    ≡ ok (record { status = accepted; error = [] })
redeem-unblind-issue-blind_example =
    redeem-unblind-issue-blind toy_platform toy_blst toy_IsGroup toy_IsField toy_IsEncoding
      toy_IsBytes toy_IsPairing disk (some (bytes "DST")) entropy (bytes "7f") (bytes "m") []
      blinds_to quiet quiet entropy class toy_service toy_result two one 9 blinded issued received
      unblinded admitted fresh live
