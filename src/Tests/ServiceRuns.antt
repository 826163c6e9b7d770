-- ===== src/Tests/ServiceRuns.antt =====
-- The theorems on the credential service, at the toy service and its credential.
use blindvault.Base.{
  ◌≡◌, refl, ap, lookup, Text_discrete, true, false, none, some, List, [], Text, All, IsDistinct,
}
use blindvault.Apperr.{ok}
use blindvault.Context.{check_context}
use blindvault.Crypto.Derive.{derive_signing_key, key_info}
use blindvault.Crypto.Nullifier.{compute_nullifier}
use blindvault.Service.Config.{is_epoch_supported}
use blindvault.Service.Config.Seed.{master_seed}
use blindvault.Service.Credentials.{Service, accepted}
use blindvault.Service.Credentials.Consume.{admit, consume}
use blindvault.Service.Credentials.Consume.Acceptance.{consume_credential}
use blindvault.Service.Credentials.Consume.OneTime.{IsSpent, consume-IsSpent, holds}
use blindvault.Service.Credentials.Consume.Sequence.{
  Run, stop, step, redeems, spent, add_spent, Run-IsDistinct,
}
use blindvault.Service.Credentials.Consume.Outcome.{
  was_accepted, nullifier_of, IsVerified, consume-IsVerified, IsAdmitted, consume-IsAdmitted,
}
use blindvault.Storage.Memory.{memory_store, memory_store-IsNullifierSet, check_and_store, marked}
use blindvault.Storage.RevocationMemory
use blindvault.Tests.ToyBlst.{
  two, mul, hash, toy_blst, toy_platform, toy_IsPairing, toy_IsEncoding, toy_IsBytes,
}
use blindvault.Tests.ToyService.{seed, epoch, class, toy_config, toy_service, quiet, toy_credential}

abbrev pub N2 : Text
N2 = (compute_nullifier toy_platform toy_blst epoch class (mul two two))

abbrev pub Toy : Type 0
Toy = Service toy_platform memory_store RevocationMemory.memory_store

pub admitted : admit toy_platform toy_blst 5 class epoch toy_service ≡ ok none
unfolding admit is_epoch_supported RevocationMemory.is_revoked Text_discrete lookup
admitted = refl

pub opened : (master_seed toy_platform toy_config).0 ≡ ok seed
unfolding master_seed
opened = refl

pub key : derive_signing_key toy_platform toy_blst (some seed) epoch class ≡ ok two
unfolding derive_signing_key key_info hash
key = refl

pub new :
    (memory_store.check_and_store
      (record { done = check_context quiet 1; now = 5 })
      (compute_nullifier toy_platform toy_blst epoch class (mul two two))
      toy_service.store).0
    ≡ ok true
unfolding check_and_store marked check_context lookup
new = refl

consume_credential_example :
    (consume toy_platform toy_blst quiet 5 toy_credential toy_service).0
    ≡ ok (record { status = accepted; error = [] })
consume_credential_example =
    consume_credential toy_platform toy_blst toy_IsEncoding toy_IsBytes toy_IsPairing quiet 5 two
      two class epoch seed toy_service admitted opened key (unfold check_context in refl) refl new

pub was_accepted_toy :
    was_accepted (consume toy_platform toy_blst quiet 5 toy_credential toy_service).0 ≡ true
was_accepted_toy = ap was_accepted (
    consume_credential toy_platform toy_blst toy_IsEncoding toy_IsBytes toy_IsPairing quiet 5 two
      two class epoch seed toy_service admitted opened key (unfold check_context in refl) refl new)

consume-IsVerified_example : IsVerified toy_platform toy_blst 5 toy_credential toy_service
consume-IsVerified_example =
    consume-IsVerified toy_platform toy_blst quiet 5 toy_credential toy_service was_accepted_toy

consume-IsAdmitted_example : IsAdmitted toy_platform toy_blst 5 class epoch toy_service
consume-IsAdmitted_example =
    consume-IsAdmitted toy_platform toy_blst quiet 5 toy_credential toy_service was_accepted_toy

consume-IsSpent_example :
    IsSpent toy_platform toy_blst memory_store-IsNullifierSet
      (nullifier_of toy_platform toy_blst toy_credential)
      toy_service
      (consume toy_platform toy_blst quiet 5 toy_credential toy_service)
consume-IsSpent_example =
    consume-IsSpent toy_platform toy_blst memory_store-IsNullifierSet quiet 5 toy_credential
      toy_service

-- The credential is redeemed twice.
abbrev once : Toy
once = (consume toy_platform toy_blst quiet 5 toy_credential toy_service).1

abbrev keys : List Text
keys =
    add_spent
      (spent toy_platform toy_blst memory_store-IsNullifierSet quiet 5 toy_credential toy_service)
      (add_spent
        (spent toy_platform toy_blst memory_store-IsNullifierSet quiet 6 toy_credential once) [])

two_redemptions :
    Run toy_platform toy_blst memory_store-IsNullifierSet toy_service
      (consume toy_platform toy_blst quiet 6 toy_credential once).1
      keys
two_redemptions =
    step (redeems quiet 5 toy_credential toy_service)
      (step (redeems quiet 6 toy_credential once) (stop _))

Run-IsDistinct_example :
    All (λ k. holds toy_platform toy_blst memory_store-IsNullifierSet toy_service k ≡ false) keys
    × IsDistinct keys
Run-IsDistinct_example =
    Run-IsDistinct toy_platform toy_blst memory_store-IsNullifierSet two_redemptions
