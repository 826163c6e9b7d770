-- ===== src/Storage/Redis/Revocation/Effects.antt =====
-- What the Redis revocation store does to its keys (internal/storage/revocation_redis.go).
use blindvault.Base.{
  ℕ, zero, suc, ◌-◌, ◌≤◌, ◌≡◌, refl, ◌≢◌, Bool, true, false, Option, none, some, List, [], ◌++◌,
  Text, bytes, arith, nat_eq, Bool-cases, inl, inr,
}
use blindvault.Apperr.{GoError, Result, ok, err}
use blindvault.Storage.{RevocationEntry}
use blindvault.Storage.Contract.{IsRevoking, is_current}
use blindvault.Storage.RevocationKey.{redis_revocation_key}
use blindvault.Storage.RevocationMemory.{has_expired}
use blindvault.Storage.Redis.{Redis, Reply, redis_nil, failed, value}
use blindvault.Storage.Redis.Laws.{IsRedis}
use blindvault.Storage.Redis.Revocation.{
  EntryCodec, revoke_class, is_revoked, list_loop, list_revocations, page,
}

-- What encoding/json promises: an entry that was marshalled is read back, with its end; in the texts
-- of an entry what is not UTF-8 may be replaced.
pub record IsCodec (J : EntryCodec) : Type 0 where
  pub unmarshal-marshal :
      (entry : RevocationEntry) (text : Text)
      → J.marshal entry ≡ ok text
      → (read : RevocationEntry) × (J.unmarshal text ≡ ok read)
        × (read.revoked_until ≡ entry.revoked_until)

module _ (R : Redis) (J : EntryCodec) where
  -- A revocation whose end is not in the future is refused, and nothing is written.
  pub revoke_class_past :
      (now until : ℕ) (class epoch reason by : Text) (db : R.Db)
      → until ≤ now
      → ((revoke_class R J now class epoch reason by (some until) db).0 ≢ none)
        × ((revoke_class R J now class epoch reason by (some until) db).1 ≡ db)
  unfolding revoke_class
  revoke_class_past now until class epoch reason by db h = ground arith

  module _ (now : ℕ) (db : R.Db) where
    -- A scan that starts at the cursor ends after that many pages.
    pub data Ends : ℕ → ℕ → Type 0 where
      fails :
          (cursor : ℕ) (e : GoError)
          → R.scan now cursor (bytes "revoke:*") 100 db ≡ err e
          → Ends cursor 1
      last :
          (cursor : ℕ) (keys : List Text)
          → R.scan now cursor (bytes "revoke:*") 100 db ≡ ok (keys, 0)
          → Ends cursor 1
      more :
          (cursor next n : ℕ) (keys : List Text)
          → R.scan now cursor (bytes "revoke:*") 100 db ≡ ok (keys, next)
          → next ≢ 0
          → Ends next n
          → Ends cursor (suc n)

    list_loop_total :
        (cursor pages fuel : ℕ) (entries : List RevocationEntry)
        → Ends cursor pages
        → pages ≤ fuel
        → (r : Result (List RevocationEntry)) × (list_loop R J fuel now cursor entries db ≡ some r)
    unfolding list_loop
    list_loop_total cursor pages zero entries (fails _ e p) h = absurd (omega arith)
    list_loop_total cursor pages zero entries (last _ keys p) h = absurd (omega arith)
    list_loop_total cursor pages zero entries (more _ next n keys p ne rest) h =
        absurd (omega arith)
    list_loop_total cursor pages (suc fuel) entries (fails _ e p) h = (err e, rw (p, list_loop))
    list_loop_total cursor pages (suc fuel) entries (last _ keys p) h =
        (ok (entries ++ page R J now keys db), rw (p, list_loop))
    list_loop_total cursor pages (suc fuel) entries (more _ next n keys p ne rest) h =
        elim (Bool-cases (nat_eq next 0)) [
          | inl z ↦ absurd (ne (ground arith))
          | inr z ↦
              rw (p, list_loop)
                (rw (z) (
                  list_loop_total next n fuel (entries ++ page R J now keys db) rest (omega arith)))
        ]

    -- With at least as many rounds as the scan has pages, ListRevocations returns.
    pub list_revocations_total :
        (pages fuel : ℕ)
        → Ends 0 pages
        → pages ≤ fuel
        → (r : Result (List RevocationEntry)) × (list_revocations R J fuel now db ≡ some r)
    unfolding list_revocations
    list_revocations_total pages fuel e h = list_loop_total 0 pages fuel [] e h

  module _ (L : IsRedis R) (C : IsCodec J) where
    answer_of_live :
        (now : ℕ) (class epoch text : Text) (made : RevocationEntry) (db : R.Db) (b : Bool)
        (entry : Option RevocationEntry)
        → L.live db now (redis_revocation_key class epoch) ≡ some text
        → J.unmarshal text ≡ ok made
        → has_expired now made ≡ false
        → is_revoked R J now class epoch db ≡ ok (b, entry)
        → b ≡ true
    unfolding is_revoked
    answer_of_live now class epoch text made db b entry held read current answer =
        reply_cases (R.get now (redis_revocation_key class epoch) db) refl
      where
        reply_cases : (r : Reply) → R.get now (redis_revocation_key class epoch) db ≡ r → b ≡ true
        reply_cases (failed e) p = ground arith
        reply_cases redis_nil p = cc (L.get_nil now (redis_revocation_key class epoch) db p)
        reply_cases (value v) p =
            let same = L.get_value now (redis_revocation_key class epoch) v db p in
            let reads : J.unmarshal v ≡ ok made = cc in ground arith

    abbrev made : ℕ → Text → Text → Text → Text → Option ℕ → RevocationEntry
    made now class epoch reason by until = record {
      credential_class = class;
      key_epoch = epoch;
      reason = reason;
      revoked_at = now;
      revoked_until = until;
      revoked_by = by;
    }

    -- While an accepted revocation is in force IsRevoked, unless it fails, answers that the pair is
    -- revoked.
    pub is_revoked-revoke_class :
        (now later : ℕ) (class epoch reason by : Text) (until : Option ℕ) (db : R.Db) (b : Bool)
        (entry : Option RevocationEntry)
        → now ≤ later
        → is_current later until ≡ true
        → (revoke_class R J now class epoch reason by until db).0 ≡ none
        → is_revoked R J later class epoch (revoke_class R J now class epoch reason by until db).1
          ≡ ok (b, entry)
        → b ≡ true
    unfolding revoke_class has_expired
    is_revoked-revoke_class now later class epoch reason by until db b entry after current done
          answer =
        marshal_cases (J.marshal (made now class epoch reason by until)) until refl current done
          answer
      where
        key : Text
        key = redis_revocation_key class epoch

        stored : Option ℕ → R.Db
        stored u = (revoke_class R J now class epoch reason by u db).1

        marshal_cases :
            (m : Result Text) (u : Option ℕ)
            → J.marshal (made now class epoch reason by u) ≡ m
            → is_current later u ≡ true
            → (revoke_class R J now class epoch reason by u db).0 ≡ none
            → is_revoked R J later class epoch (stored u) ≡ ok (b, entry)
            → b ≡ true
        marshal_cases (err e) u p c d a = absurd (ground arith)
        marshal_cases (ok text) none p c d a =
            let (read, decoded, same) =
              C.unmarshal-marshal (made now class epoch reason by none) text p in
            answer_of_live later class epoch text read (stored none) b entry
              (ground (arith, L.set_kept now later key text db)) decoded (ground (arith, same)) a
        marshal_cases (ok text) (some t) p c d a =
            let (read, decoded, same) =
              C.unmarshal-marshal (made now class epoch reason by (some t)) text p in
            answer_of_live later class epoch text read (stored (some t)) b entry
              (ground (arith, L.set_held now later key text (t - now) db)) decoded
              (ground (arith, same)) a

    -- The Redis store keeps the contract of revocations, where Redis and the codec keep their laws:
    -- after RevokeClass was taken, IsRevoked never reports the pair as free while the revocation is
    -- in force by at least a millisecond.
    pub redis-IsRevoking : IsRevoking (revoke_class R J) (is_revoked R J)
    redis-IsRevoking = record {
      blocked = λ now later class epoch reason by until db entry after current done answer. ground (
        arith,
        is_revoked-revoke_class now later class epoch reason by until db false entry after current
            done answer,
      );
    }
