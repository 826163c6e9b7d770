-- ===== src/Storage/Redis/Laws.antt =====
-- What the documentation of Redis promises of SET NX, SET, GET and DEL.
use blindvault.Base.{
  ℕ, ◌+◌, ◌≤◌, ◌<◌, ◌%◌, ◌≡◌, ◌≢◌, pos, Bool, true, false, Option, none, some, Text, ◌==◌,
  if◌then◌else◌,
}
use blindvault.Apperr.{ok}
use blindvault.Context.{Call}
use blindvault.Storage.Redis.{Redis, redis_nil, value}

abbrev pub is_none {ℓ} : {A : Type ℓ} → Option A → Bool
is_none none = true
is_none (some a) = false

-- The smallest expiration that the client sends.
abbrev pub millisecond : ℕ
millisecond = 1000000

pub record IsRedis (R : Redis) : Type 0 where
  -- what a key holds at a time
  pub live : R.Db → ℕ → Text → Option Text
  pub set_nx_answer :
      (c : Call) (k v : Text) (e : ℕ) (db : R.Db) (b : Bool)
      → (R.set_nx c k v (pos e) db).0 ≡ ok b
      → b ≡ is_none (live db c.now k)
  -- a key that was set with an expiration is gone when that has passed, and a millisecond, the least
  -- that the client sends
  pub set_nx_expired :
      (c : Call) (later : ℕ) (k v : Text) (e : ℕ) (db : R.Db)
      → (R.set_nx c k v (pos e) db).0 ≡ ok true
      → 0 < e
      → c.now + e ≤ later
      → c.now + millisecond ≤ later
      → live (R.set_nx c k v (pos e) db).1 later k ≡ none
  -- and it is held until then, to the millisecond
  pub set_nx_held :
      (c : Call) (later : ℕ) (k v : Text) (e : ℕ) (db : R.Db)
      → (R.set_nx c k v (pos e) db).0 ≡ ok true
      → millisecond ≤ e
      → e % millisecond ≡ 0
      → c.now ≤ later
      → later < c.now + e
      → live (R.set_nx c k v (pos e) db).1 later k ≡ some v
  -- a command with NX changes no other key, and none at all where its key is held
  pub set_nx_others :
      (c : Call) (later : ℕ) (k j v : Text) (e : ℕ) (db : R.Db)
      → k ≢ j
      → live (R.set_nx c k v (pos e) db).1 later j ≡ live db later j
  pub set_nx_taken :
      (c : Call) (later : ℕ) (k v w : Text) (e : ℕ) (db : R.Db)
      → live db c.now k ≡ some w
      → live (R.set_nx c k v (pos e) db).1 later k ≡ live db later k
  -- a key that was set without an expiration is held, and one with an expiration until then, to the
  -- millisecond
  pub set_kept :
      (now later : ℕ) (k v : Text) (db : R.Db)
      → (R.set now k v (pos 0) db).0 ≡ none
      → now ≤ later
      → live (R.set now k v (pos 0) db).1 later k ≡ some v
  pub set_held :
      (now later : ℕ) (k v : Text) (e : ℕ) (db : R.Db)
      → (R.set now k v (pos e) db).0 ≡ none
      → now ≤ later
      → later + millisecond ≤ now + e
      → live (R.set now k v (pos e) db).1 later k ≡ some v
  pub del_live :
      (now later : ℕ) (k j : Text) (db : R.Db)
      → (R.del now k db).0 ≡ none
      → live (R.del now k db).1 later j ≡ (if k == j then none else live db later j)
  pub get_value :
      (now : ℕ) (k v : Text) (db : R.Db) → R.get now k db ≡ value v → live db now k ≡ some v
  pub get_nil : (now : ℕ) (k : Text) (db : R.Db) → R.get now k db ≡ redis_nil → live db now k ≡ none
