-- ===== src/Storage/Redis.antt =====
-- The redis client library, as internal/storage calls it: a parameter of the two Redis stores.
pub mod Connect
pub mod Laws
pub mod Nullifier
pub mod Revocation
use blindvault.Base.{ℕ, ℤ, Bool, Option, List, Text}
use blindvault.Apperr.{GoError, Result}
use blindvault.Context.{Call}

-- The outcome of a GET: redis.Nil, another error, or the bytes.
pub data Reply : Type 0 where
  redis_nil : Reply
  failed : GoError → Reply
  value : Text → Reply

-- github.com/redis/go-redis/v9; an operation has the surroundings of its call, or its time where the
-- context is context.Background(), and an expiration is a time.Duration in nanoseconds, 0 for none.
pub record Redis : Type 1 where
  pub Db : Type 0
  pub set_nx : Call → Text → Text → ℤ → Db → Result Bool × Db
  pub set : ℕ → Text → Text → ℤ → Db → Option GoError × Db
  pub get : ℕ → Text → Db → Reply
  pub del : ℕ → Text → Db → Option GoError × Db
  -- cursor, pattern, count; the keys of this page and the next cursor
  pub scan : ℕ → ℕ → Text → ℕ → Db → Result (List Text × ℕ)
  pub ping : Call → Db → Option GoError
  pub close : Db → Option GoError × Db
