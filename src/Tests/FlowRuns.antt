-- ===== src/Tests/FlowRuns.antt =====
-- Redemptions that are repeated, the client of the end-to-end test and the test vectors, at the
-- toy service.
use blindvault.Base.{
  ◌≡◌, refl, ap, ◌∙◌, true, false, none, some, [], ◌∷◌, Text, bytes, lookup, insert, arith,
  Text_discrete, ==-refl,
}
use blindvault.Apperr.{ok}
use blindvault.Client.{blind_point}
use blindvault.Client.EndToEnd.{main, test_class, test_message}
use blindvault.Client.EndToEnd.Service.{service_endpoint, admit-consume, main-service}
use blindvault.Context.{Call, check_context}
use blindvault.Crypto.Derive.{derive_signing_key, key_info}
use blindvault.Crypto.Dleq.{DleqProof, compute_challenge, dleq_prove}
use blindvault.Crypto.Engine.{hash_to_curve, blind_message, sign_blinded}
use blindvault.Crypto.Engine.RoundTrip.{deserialize_g1-compress1}
use blindvault.Crypto.Scalar.{is_zero, new_random_scalar, pub_key}
use blindvault.Service.Config.{is_epoch_supported}
use blindvault.Service.Config.Seed.{master_seed}
use blindvault.Service.Credentials.{accepted}
use blindvault.Service.Credentials.Consume.{admit, consume}
use blindvault.Service.Credentials.Consume.Acceptance.{read_points-hex_g1, consume_credential-store}
use blindvault.Service.Credentials.Consume.Outcome.{nullifier_of}
use blindvault.Service.Credentials.Consume.Replay.{already_redeemed, consume_twice}
use blindvault.Service.Credentials.Issue.{read_blinded, sign, issue}
use blindvault.Service.Credentials.Points.{hex_g1, decode-hex_g1}
use blindvault.Storage.Memory.{memory_store, memory_store-IsNullifierSet, check_and_store, marked}
use blindvault.Storage.RevocationMemory
use blindvault.Tests.ProtocolRuns
use blindvault.Tests.ServiceRuns
use blindvault.Tests.ServiceRuns.{Toy, N2}
use blindvault.Tests.ToyBlst.{
  one, two, mul, add, usable, hash, compress, serialize, zeros, toy_blst, toy_platform, toy_IsGroup,
  toy_IsField, toy_IsPairing, toy_IsEncoding, toy_IsBytes,
}
use blindvault.Tests.ToyService.{seed, epoch, class, toy_config, toy_service, quiet, toy_credential}
use blindvault.Validation.Hex.{decode_string, from_hex_char}
use blindvault.Vectors.{
  VectorTexts, FileErrors, master_seed_hex, vector_epoch, credential_class, blinding_factor,
  generate,
}
use blindvault.Vectors.Accepted.{consume-generate}

live : check_context quiet 0 ≡ none
unfolding check_context
live = refl

named : nullifier_of toy_platform toy_blst toy_credential ≡ some N2
unfolding nullifier_of
named = ground (
  arith,
  read_points-hex_g1 toy_platform toy_blst toy_IsEncoding toy_IsBytes toy_IsPairing (mul two two)
      two refl refl,
)

-- the service behind the first redemption
abbrev once : Toy
once = (consume toy_platform toy_blst quiet 5 toy_credential toy_service).1

still_admitted : admit toy_platform toy_blst 5 class epoch once ≡ ok none
still_admitted =
    admit-consume toy_platform toy_blst toy_IsGroup toy_IsField toy_IsEncoding toy_IsBytes quiet 5
      toy_credential class epoch toy_service
    ∙ ServiceRuns.admitted

abbrev call : Call
call = record { done = check_context quiet 1; now = 5 }

stored : once.store ≡ (check_and_store call N2 []).1
stored =
    consume_credential-store toy_platform toy_blst toy_IsEncoding toy_IsBytes toy_IsPairing quiet 5
      two two class epoch seed toy_service ServiceRuns.admitted ServiceRuns.opened ServiceRuns.key
      live refl

-- the store in memory answers every nullifier that it has just taken
again : (k : Text) → (check_and_store call k (check_and_store call k []).1).0 ≡ ok false
unfolding check_and_store marked lookup insert check_context
again k = ground (arith, ==-refl k)

answered : (check_and_store call N2 once.store).0 ≡ ok false
answered = ap (λ s. (check_and_store call N2 s).0) stored ∙ again N2

consume_twice_example :
    (consume toy_platform toy_blst quiet 5 toy_credential once).0 ≡ ok already_redeemed
consume_twice_example =
    consume_twice toy_platform toy_blst memory_store-IsNullifierSet quiet quiet 5 5 toy_credential
      toy_service false N2 ServiceRuns.was_accepted_toy named still_admitted live answered

-- the request of the client of the end-to-end test, for its own class
key' : derive_signing_key toy_platform toy_blst (some seed) epoch test_class ≡ ok two
unfolding derive_signing_key key_info hash
key' = refl

signed' :
    sign toy_platform toy_blst quiet ProtocolRuns.entropy one epoch test_class (ok seed)
    ≡ ok ProtocolRuns.toy_result
unfolding sign sign_blinded check_context mul
signed' = rw key' (rw ProtocolRuns.proved refl)

read' : read_blinded toy_platform toy_blst quiet (hex_g1 toy_blst one) test_class ≡ ok one
unfolding read_blinded check_context
read' = ground (
  arith,
  decode-hex_g1 toy_blst toy_IsBytes one,
  deserialize_g1-compress1 toy_blst toy_IsEncoding one refl,
)

issued' :
    issue toy_platform toy_blst quiet ProtocolRuns.entropy
      (hex_g1 toy_blst one)
      test_class
      toy_service
    ≡ (ok ProtocolRuns.toy_result, toy_service)
unfolding issue master_seed
issued' = ground (arith, read', signed')

admitted' : admit toy_platform toy_blst 5 test_class epoch toy_service ≡ ok none
unfolding admit is_epoch_supported RevocationMemory.is_revoked Text_discrete lookup
admitted' = refl

fresh' : (k : Text) → (check_and_store call k []).0 ≡ ok true
unfolding check_and_store marked lookup check_context
fresh' k = refl

blinded' :
    blind_point toy_blst (some (bytes "BCIS-V1-MESSAGE")) ProtocolRuns.entropy test_message
    ≡ ok (two, two, one)
unfolding blind_point hash_to_curve new_random_scalar blind_message hash mul
blinded' = refl

main-service_example :
    (main toy_blst
      (service_endpoint toy_platform toy_blst memory_store RevocationMemory.memory_store quiet 5
        ProtocolRuns.entropy)
      ProtocolRuns.entropy
      toy_service).0
    ≡ ok tt
main-service_example =
    main-service toy_platform toy_blst toy_IsGroup toy_IsField toy_IsEncoding toy_IsBytes
      toy_IsPairing memory_store RevocationMemory.memory_store memory_store-IsNullifierSet quiet 5
      ProtocolRuns.entropy ProtocolRuns.entropy two two one toy_service ProtocolRuns.toy_result
      blinded' (ap (λ x. x.0) issued')
      (ap (λ x. admit toy_platform toy_blst 5 test_class epoch x.1) issued' ∙ admitted') live
      (λ k. ap (λ x. (check_and_store call k x.1.store).0) issued' ∙ fresh' k)
      (λ k. (
        false,
        ap (λ x. (check_and_store call k (check_and_store call k x.1.store).1).0) issued' ∙ again k,
      ))

-- the seed of the test vectors, in a server that is otherwise the toy service
abbrev vector_seed : Text
vector_seed =
    0 ∷ 1 ∷ 2 ∷ 3 ∷ 4 ∷ 5 ∷ 6 ∷ 7 ∷ 8 ∷ 9 ∷ 10 ∷ 11 ∷ 12 ∷ 13 ∷ 14 ∷ 15 ∷ 16 ∷ 17 ∷ 18 ∷ 19 ∷ 20
    ∷ 21 ∷ 22 ∷ 23 ∷ 24 ∷ 25 ∷ 26 ∷ 27 ∷ 28 ∷ 29 ∷ 30 ∷ 31 ∷ []

abbrev vector_service : Toy
vector_service = record toy_service {
  config = record toy_config { master_seed_enclave = some vector_seed };
}

decoded : decode_string master_seed_hex ≡ ok vector_seed
unfolding decode_string from_hex_char
decoded = refl

vector_signing :
    derive_signing_key toy_platform toy_blst (some vector_seed) vector_epoch credential_class
    ≡ ok one
unfolding derive_signing_key key_info hash
vector_signing = refl

vector_factor : blinding_factor toy_platform toy_blst true ProtocolRuns.entropy ≡ ok two
unfolding blinding_factor new_random_scalar hash
vector_factor = refl

abbrev vector_proof : DleqProof toy_blst
vector_proof = record { r1 = one; r2 = one; s = two; c = one }

vector_proved :
    dleq_prove toy_blst (ok (bytes "even")) one (mul two two) (pub_key toy_blst one)
    ≡ ok vector_proof
unfolding dleq_prove pub_key new_random_scalar compute_challenge hash mul add usable compress
vector_proved = refl

nonzero : is_zero toy_blst two ≡ false
unfolding is_zero serialize zeros
nonzero = refl

vectors_admitted :
    admit toy_platform toy_blst 5 credential_class vector_epoch vector_service ≡ ok none
unfolding admit is_epoch_supported RevocationMemory.is_revoked Text_discrete lookup
vectors_admitted = refl

vectors_sealed : (master_seed toy_platform vector_service.config).0 ≡ ok vector_seed
unfolding master_seed
vectors_sealed = refl

abbrev no_errors : FileErrors
no_errors = record { mkdir = none; create = none; write = none }

consume-generate_example :
    (texts : VectorTexts) × (generate toy_platform toy_blst no_errors true ProtocolRuns.entropy
        (ok (bytes "even"))
      ≡ ok texts)
    × ((consume toy_platform toy_blst quiet 5
          (record {
            signature = texts.unblinded_signature;
            witness = texts.witness;
            class = credential_class;
            epoch = vector_epoch;
          })
          vector_service).0
        ≡ ok (record { status = accepted; error = [] }))
consume-generate_example =
    consume-generate toy_platform toy_blst toy_IsGroup toy_IsEncoding toy_IsBytes toy_IsPairing true
      ProtocolRuns.entropy (ok (bytes "even")) vector_seed one two vector_proof no_errors quiet 5
      vector_service decoded vector_signing vector_factor nonzero vector_proved refl refl refl
      vectors_admitted vectors_sealed live (fresh' _)
