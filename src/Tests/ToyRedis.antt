-- ===== src/Tests/ToyRedis.antt =====
-- A Redis that computes: a map from keys to values with the time at which they run out.
use blindvault.Base.{
  ◌≡◌, refl, ℕ, ◌+◌, ℤ, pos, negsuc, Bool, true, false, Option, none, some, [], Text, bytes, Map,
  lookup, insert, erase, lookup-insert, lookup-erase, ltb, leb, nat_eq, if◌then◌else◌, arith,
}
use blindvault.Apperr.{GoError, plain, Result, ok, err}
use blindvault.Context.{Call}
use blindvault.Storage.Redis.{Redis, Reply, redis_nil, value}
use blindvault.Storage.Redis.Laws.{IsRedis, is_none, millisecond}

abbrev pub Db : Type 0
Db = Map (Text × Option ℕ)

unfoldable pub in_force : ℕ → Option (Text × Option ℕ) → Option Text
in_force now none = none
in_force now (some (v, none)) = some v
in_force now (some (v, some t)) = if ltb now t then some v else none

unfoldable pub live : Db → ℕ → Text → Option Text
live db now k = in_force now (lookup k db)

abbrev pub until : ℕ → ℕ → Option ℕ
until now e = if nat_eq e 0 then none else some (now + e)

-- an expiration is at least a millisecond
abbrev pub until_least : ℕ → ℕ → Option ℕ
until_least now e =
    if nat_eq e 0
    then none
    else if leb millisecond e
    then some (now + e)
    else some (now + millisecond)

unfoldable pub set : ℕ → Text → Text → ℤ → Db → Option GoError × Db
set now k v (pos e) db = (none, insert k (v, until now e) db)
set now k v (negsuc e) db = (some (plain (bytes "invalid expire time")), db)

unfoldable pub set_nx : Call → Text → Text → ℤ → Db → Result Bool × Db
set_nx c k v (pos e) db =
    if is_none (live db c.now k)
    then (ok true, insert k (v, until_least c.now e) db)
    else (ok false, db)
set_nx c k v (negsuc e) db = (err (plain (bytes "invalid expire time")), db)

unfoldable pub reply_of : Option Text → Reply
reply_of none = redis_nil
reply_of (some v) = value v

abbrev pub toy_redis : Redis
toy_redis = record {
  Db = Db;
  set_nx = set_nx;
  set = set;
  get = λ now k db. reply_of (live db now k);
  del = λ now k db. (none, erase k db);
  scan = λ now cursor pattern count db. if nat_eq cursor 0 then ok ([], 7) else ok ([], 0);
  ping = λ c db. c.done;
  close = λ db. (none, db);
}

pub toy_IsRedis : IsRedis toy_redis
unfolding live set set_nx in_force reply_of
toy_IsRedis = record {
  live = live;
  set_nx_answer = λ c k v e db b h. ground arith;
  set_nx_expired = λ c later k v e db h some_time passed least.
      ground (arith, lookup-insert k k (v, until_least c.now e) db);
  set_nx_held = λ c later k v e db h whole exact after before.
      ground (arith, lookup-insert k k (v, until_least c.now e) db);
  set_nx_others =
      λ c later k j v e db differ. ground (arith, lookup-insert k j (v, until_least c.now e) db);
  set_nx_taken = λ c later k v w e db held. ground arith;
  set_kept = λ now later k v db h after. ground (arith, lookup-insert k k (v, until now 0) db);
  set_held =
      λ now later k v e db h after before. ground (arith, lookup-insert k k (v, until now e) db);
  del_live = λ now later k j db h. ground (arith, lookup-erase k j db);
  get_value = λ now k v db h. ground arith;
  get_nil = λ now k db h. ground arith;
}

-- In the empty database no key is live.
pub live_empty : (now : ℕ) (k : Text) → toy_IsRedis.live [] now k ≡ none
unfolding toy_IsRedis live in_force lookup
live_empty now k = refl
