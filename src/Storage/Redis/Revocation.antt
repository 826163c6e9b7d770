-- ===== src/Storage/Redis/Revocation.antt =====
-- internal/storage/revocation_redis.go
pub mod Effects
use blindvault.Base.{
  ℕ, zero, suc, ◌≤◌, ◌<◌, ◌≡◌, ℤ, pos, sub_ℕ, is_nonpositive, Bool, true, false, Option, none, some,
  List, [], ◌∷◌, ◌++◌, Text, bytes, nat_eq, ltb, if◌then◌else◌, arith,
}
use blindvault.Apperr.{GoError, plain, Result, ok, err}
use blindvault.Context.{Call}
use blindvault.Storage.{RevocationEntry, RevocationStore}
use blindvault.Storage.RevocationKey.{redis_revocation_key}
use blindvault.Storage.RevocationMemory.{has_expired}
use blindvault.Storage.Redis.{Redis, Reply, redis_nil, failed, value}

-- json.Marshal and json.Unmarshal at a RevocationEntry.
pub record EntryCodec : Type 0 where
  pub marshal : RevocationEntry → Result Text
  pub unmarshal : Text → Result RevocationEntry

module _ (R : Redis) (J : EntryCodec) where
  -- RedisRevocationStore.RevokeClass; the time of each call of time.Now is `now`
  unfoldable pub revoke_class :
      ℕ → Text → Text → Text → Text → Option ℕ → R.Db → Option GoError × R.Db
  revoke_class now class epoch reason revoked_by revoked_until db =
      let key = redis_revocation_key class epoch in
      let entry : RevocationEntry = record {
        credential_class = class;
        key_epoch = epoch;
        reason = reason;
        revoked_at = now;
        revoked_until = revoked_until;
        revoked_by = revoked_by;
      } in
      elim (J.marshal entry) [
        | err e ↦ (some e, db)
        | ok text ↦ elim revoked_until [
          | some until ↦
              if is_nonpositive (sub_ℕ until now)
              then (some (plain (bytes "revoked_until must be in the future")), db)
              else R.set now key text (sub_ℕ until now) db
          | none ↦ R.set now key text (pos 0) db
        ]
      ]

  -- the class-wide look-up of IsRevoked
  class_wide : ℕ → Text → R.Db → Result (Bool × Option RevocationEntry)
  class_wide now class db = elim (R.get now (redis_revocation_key class []) db) [
    | failed e ↦ err e
    | redis_nil ↦ ok (false, none)
    | value text ↦ elim (J.unmarshal text) [
      | ok entry ↦ ok (true, some entry)
      | err e ↦ ok (false, none)
    ]
  ]

  -- RedisRevocationStore.IsRevoked
  unfoldable pub is_revoked : ℕ → Text → Text → R.Db → Result (Bool × Option RevocationEntry)
  unfolding class_wide
  is_revoked now class epoch db = elim (R.get now (redis_revocation_key class epoch) db) [
    | failed e ↦ err e
    | redis_nil ↦ class_wide now class db
    | value text ↦ elim (J.unmarshal text) [
      | ok entry ↦ if has_expired now entry then ok (false, none) else ok (true, some entry)
      | err e ↦ class_wide now class db
    ]
  ]

  -- the entries of one page of keys; keys that cannot be read or decoded are skipped
  unfoldable pub page : ℕ → List Text → R.Db → List RevocationEntry
  page now [] db = []
  page now (key ∷ keys) db =
      let rest = page now keys db in
      elim (R.get now key db) [
        | value text ↦ elim (J.unmarshal text) [ ok entry ↦ entry ∷ rest | err e ↦ rest ]
        | _ ↦ rest
      ]

  -- the loop of ListRevocations, for `fuel` pages; `none` when these are not enough
  unfoldable pub list_loop :
      ℕ → ℕ → ℕ → List RevocationEntry → R.Db → Option (Result (List RevocationEntry))
  list_loop zero now cursor entries db = none
  list_loop (suc fuel) now cursor entries db = elim (R.scan now cursor (bytes "revoke:*") 100 db) [
    | err e ↦ some (err e)
    | ok (keys, next_cursor) ↦ elim (nat_eq next_cursor 0) [
      | true ↦ some (ok (entries ++ page now keys db))
      | false ↦ list_loop fuel now next_cursor (entries ++ page now keys db) db
    ]
  ]

  -- RedisRevocationStore.ListRevocations
  unfoldable pub list_revocations : ℕ → ℕ → R.Db → Option (Result (List RevocationEntry))
  unfolding list_loop page
  list_revocations fuel now db = list_loop fuel now 0 [] db

  -- RedisRevocationStore.UnrevokeClass
  unfoldable pub unrevoke_class : ℕ → Text → Text → R.Db → Option GoError × R.Db
  unrevoke_class now class epoch db = R.del now (redis_revocation_key class epoch) db

  -- RedisRevocationStore.Ping
  unfoldable pub ping : Call → R.Db → Option GoError
  ping c db = R.ping c db

  -- RedisRevocationStore.Close
  unfoldable pub close : R.Db → Option GoError × R.Db
  close db = R.close db
