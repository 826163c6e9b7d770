-- ===== src/Storage/Redis/Nullifier.antt =====
-- internal/storage/nullifier_redis.go
use blindvault.Base.{
  ℕ, ◌+◌, ◌≤◌, ◌<◌, ◌%◌, ◌≡◌, ◌≢◌, ◌∙◌, refl, ℤ, pos, Bool, true, false, Option, none, some, List,
  [], ◌∷◌, All, Text, Text_discrete, bytes, arith,
}
use blindvault.Apperr.{GoError, Result, ok}
use blindvault.Context.{Call}
use blindvault.Storage.{NullifierStore}
use blindvault.Storage.Redis.{Redis}
use blindvault.Storage.Redis.Laws.{IsRedis, millisecond}

module _ (R : Redis) (expiration : ℤ) where
  -- RedisNullifierStore.CheckAndStore
  unfoldable pub check_and_store : Call → Text → R.Db → Result Bool × R.Db
  check_and_store c nullifier db = R.set_nx c nullifier (bytes "1") expiration db

  -- RedisNullifierStore.Ping
  unfoldable pub ping : Call → R.Db → Option GoError
  ping c db = R.ping c db

  -- RedisNullifierStore.Close
  unfoldable pub close : R.Db → Option GoError × R.Db
  close db = R.close db

  abbrev pub redis_store : NullifierStore
  redis_store = record {
    State = R.Db;
    check_and_store = check_and_store;
    ping = ping;
    close = close;
  }

-- Attempts to redeem, one after the other: the surroundings of the call, and the nullifier.
abbrev pub Attempts : Type 0
Attempts = List (Call × Text)

-- The attempts are about other nullifiers than this one.
abbrev pub AreOthers : Text → Attempts → Type 0
AreOthers nullifier attempts = All (λ a. a.1 ≢ nullifier) attempts

-- The attempts are made in the time from one point up to another.
abbrev pub AreWithin : ℕ → ℕ → Attempts → Type 0
AreWithin from until attempts = All (λ a. (from ≤ a.0.now) × (a.0.now < until)) attempts

-- The database behind a sequence of attempts, with the expiration of the store.
unfoldable pub run : (R : Redis) → ℤ → Attempts → R.Db → R.Db
run R expiration [] db = db
run R expiration ((c, nullifier) ∷ rest) db =
    run R expiration rest (check_and_store R expiration c nullifier db).1

module _ (R : Redis) (L : IsRedis R) (e : ℕ) where
  -- Attempts at other nullifiers leave a nullifier as it is.
  run-AreOthers :
      (nullifier : Text) (attempts : Attempts) (db : R.Db) (t : ℕ)
      → AreOthers nullifier attempts
      → L.live (run R (pos e) attempts db) t nullifier ≡ L.live db t nullifier
  unfolding run check_and_store
  run-AreOthers nullifier [] db t h = refl
  run-AreOthers nullifier ((c, k) ∷ rest) db t h =
      run-AreOthers nullifier rest (R.set_nx c k (bytes "1") (pos e) db).1 t h.1
      ∙ L.set_nx_others c t k nullifier (bytes "1") e db h.0

  -- A nullifier is held from one time up to another.
  abbrev IsHeld : Text → ℕ → ℕ → R.Db → Type 0
  IsHeld nullifier from until db =
      (t : ℕ) → from ≤ t → t < until → L.live db t nullifier ≡ some (bytes "1")

  check_and_store-IsHeld :
      (nullifier k : Text) (from until : ℕ) (c : Call) (db : R.Db)
      → from ≤ c.now
      → c.now < until
      → IsHeld nullifier from until db
      → IsHeld nullifier from until (check_and_store R (pos e) c k db).1
  unfolding check_and_store
  check_and_store-IsHeld nullifier k from until c db after before held t h h' =
      elim (Text_discrete k nullifier) [
        | yes same ↦ rw same (
            L.set_nx_taken c t nullifier (bytes "1") (bytes "1") e db (held c.now after before)
            ∙ held t h h')
        | no differ ↦ L.set_nx_others c t k nullifier (bytes "1") e db differ ∙ held t h h'
      ]

  -- No attempts, at whatever nullifiers, end the time of a nullifier that is held.
  run-IsHeld :
      (nullifier : Text) (from until : ℕ) (attempts : Attempts) (db : R.Db)
      → AreWithin from until attempts
      → IsHeld nullifier from until db
      → IsHeld nullifier from until (run R (pos e) attempts db)
  unfolding run
  run-IsHeld nullifier from until [] db within held = held
  run-IsHeld nullifier from until ((c, k) ∷ rest) db ((after, before), within) held =
      run-IsHeld nullifier from until rest (check_and_store R (pos e) c k db).1 within
        (check_and_store-IsHeld nullifier k from until c db after before held)

  module _ (c later : Call) (nullifier : Text) (db : R.Db) (between : Attempts) where
    -- The database behind a first call and the attempts that follow it.
    abbrev pub reached : R.Db
    reached = run R (pos e) between (check_and_store R (pos e) c nullifier db).1

    -- A nullifier that was new at one call is not reported as new at any later call within the
    -- expiration, whatever attempts are made in between, where the expiration is a number of whole
    -- milliseconds; and a nullifier that was free and is not among these attempts is not reported
    -- as a duplicate then.
    pub check_and_store_replay :
        (other : Text)
        → (check_and_store R (pos e) c nullifier db).0 ≡ ok true
        → millisecond ≤ e
        → e % millisecond ≡ 0
        → AreWithin c.now (c.now + e) between
        → c.now ≤ later.now
        → later.now < c.now + e
        → nullifier ≢ other
        → AreOthers other between
        → L.live db later.now other ≡ none
        → ((check_and_store R (pos e) later nullifier reached).0 ≢ ok true)
          × ((check_and_store R (pos e) later other reached).0 ≢ ok false)
    unfolding check_and_store
    check_and_store_replay other first whole exact within after before differ apart free = (
      λ again. ground (
        arith,
        L.set_nx_answer later nullifier (bytes "1") e reached true again,
        run-IsHeld nullifier c.now (c.now + e) between _ within
            (λ t h h'. L.set_nx_held c t nullifier (bytes "1") e db first whole exact h h')
            later.now after before,
      ),
      λ again. ground (
        arith,
        L.set_nx_answer later other (bytes "1") e reached false again,
        run-AreOthers other between _ later.now apart
            ∙ L.set_nx_others c later.now nullifier other (bytes "1") e db differ
            ∙ free,
      ),
    )

    -- Once the expiration and a millisecond have passed, the nullifier is not reported as a
    -- duplicate, if the attempts in between are at other nullifiers.
    pub check_and_store_expired :
        (check_and_store R (pos e) c nullifier db).0 ≡ ok true
        → 0 < e
        → AreOthers nullifier between
        → c.now + e ≤ later.now
        → c.now + millisecond ≤ later.now
        → (check_and_store R (pos e) later nullifier reached).0 ≢ ok false
    unfolding check_and_store
    check_and_store_expired first some_time apart passed least again = ground (
      arith,
      L.set_nx_answer later nullifier (bytes "1") e reached false again,
      run-AreOthers nullifier between _ later.now apart
          ∙ L.set_nx_expired c later.now nullifier (bytes "1") e db first some_time passed least,
    )
