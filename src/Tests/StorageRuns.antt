-- ===== src/Tests/StorageRuns.antt =====
-- The theorems on the stores, at stores with a few entries.
use blindvault.Base.{
  ◌≡◌, ◌≢◌, refl, arith, ℕ, true, false, Option, none, some, List, [], ◌∷◌, Text, bytes, Map, pos,
  lookup, Text_discrete, inr,
}
use blindvault.Apperr.{Result, ok}
use blindvault.Context.{Call}
use blindvault.Storage.{RevocationEntry}
use blindvault.Storage.Redis.Nullifier.{Attempts, run, check_and_store, check_and_store_replay}
use blindvault.Storage.Redis.Revocation.{EntryCodec, list_revocations}
use blindvault.Storage.Redis.Revocation.Effects.{Ends, more, last, list_revocations_total}
use blindvault.Storage.RevocationKey.{revocation_key}
use blindvault.Storage.RevocationMemory.{has_expired}
use blindvault.Storage.RevocationMemory.Policy.{
  entry_of, is_active, answers, is_blocked, is_revoked-eq-is_blocked, is_revoked_masked,
}
use blindvault.Tests.ToyCodec.{toy_codec, toy_codec-IsCodec}
use blindvault.Storage.Contract.{IsRevoking}
use blindvault.Storage.Redis.Revocation
use blindvault.Storage.Redis.Revocation.Effects.{redis-IsRevoking}
use blindvault.Tests.ToyRedis.{toy_redis, toy_IsRedis, live_empty, live, in_force, set_nx}
use blindvault.Tests.ToyService.{class, epoch}

abbrev day : ℕ
day = 86400000000000

abbrev at : ℕ → Call
at t = record { done = none; now = t }

first_time : (check_and_store toy_redis (pos day) (at 10) (bytes "n") []).0 ≡ ok true
unfolding check_and_store set_nx live in_force lookup
first_time = refl

-- two attempts at other nullifiers, and one at the same
abbrev attempts : Attempts
attempts = (at 11, bytes "m") ∷ (at 12, bytes "o") ∷ []

abbrev behind : Map (Text × Option ℕ)
behind =
    run toy_redis (pos day) ((at 11, bytes "n") ∷ attempts)
      (check_and_store toy_redis (pos day) (at 10) (bytes "n") []).1

free : toy_IsRedis.live [] 20 (bytes "p") ≡ none
free = live_empty 20 (bytes "p")

check_and_store_replay_example :
    ((check_and_store toy_redis (pos day) (at 20) (bytes "n") behind).0 ≢ ok true)
    × ((check_and_store toy_redis (pos day) (at 20) (bytes "p") behind).0 ≢ ok false)
check_and_store_replay_example =
    check_and_store_replay toy_redis toy_IsRedis day (at 10) (at 20) (bytes "n") []
      ((at 11, bytes "n") ∷ attempts) (bytes "p") first_time (omega arith) refl
      ((omega arith, omega arith), ((omega arith, omega arith), ((omega arith, omega arith), tt)))
      (omega arith) (omega arith) (λ h. ground arith)
      (λ h. ground arith, (λ h. ground arith, (λ h. ground arith, tt))) free

two_pages : Ends toy_redis toy_codec 5 [] 0 2
two_pages = more 0 7 1 [] refl (λ e. ground arith) (last 7 [] refl)

list_revocations_total_example :
    (r : Result (List RevocationEntry)) × (list_revocations toy_redis toy_codec 3 5 [] ≡ some r)
list_revocations_total_example =
    list_revocations_total toy_redis toy_codec 5 [] 2 3 two_pages (omega arith)

redis-IsRevoking_example :
    IsRevoking
      (Revocation.revoke_class toy_redis toy_codec)
      (Revocation.is_revoked toy_redis toy_codec)
redis-IsRevoking_example = redis-IsRevoking toy_redis toy_codec toy_IsRedis toy_codec-IsCodec

abbrev entry : Text → Option ℕ → RevocationEntry
entry e t = record {
  credential_class = class;
  key_epoch = e;
  reason = bytes "leak";
  revoked_at = 1;
  revoked_until = t;
  revoked_by = bytes "admin";
}

-- the pair was revoked until 5, the whole class for ever
abbrev both : Map RevocationEntry
both =
    (revocation_key class epoch, entry epoch (some 5))
    ∷ (revocation_key class [], entry [] none)
    ∷ []

current : is_active 4 (entry_of class epoch both) ≡ true
unfolding revocation_key lookup Text_discrete has_expired
current = refl

is_revoked-eq-is_blocked_example : answers 4 class epoch both ≡ is_blocked 4 class epoch both
is_revoked-eq-is_blocked_example = is_revoked-eq-is_blocked 4 class epoch both (inr current)

found : entry_of class epoch both ≡ some (entry epoch (some 5))
unfolding revocation_key lookup Text_discrete
found = refl

expired : has_expired 6 (entry epoch (some 5)) ≡ true
unfolding has_expired
expired = refl

wide : is_active 6 (entry_of class [] both) ≡ true
unfolding revocation_key lookup Text_discrete has_expired
wide = refl

is_revoked_masked_example :
    (is_blocked 6 class epoch both ≡ true) × (answers 6 class epoch both ≡ false)
is_revoked_masked_example =
    is_revoked_masked 6 class epoch both (entry epoch (some 5)) found expired wide
