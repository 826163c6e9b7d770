-- ===== src/Storage/Redis/Connect.antt =====
-- The constructors of the Redis stores (internal/storage/redis.go, nullifier_redis.go and
-- revocation_redis.go), up to the connection.
use blindvault.Base.{◌≡◌, ℕ, ℤ, Option, none, some, Text}
use blindvault.Apperr.{GoError, Result, ok, err, ◌>>=◌}

-- redis.Options, as far as the program sets them; times are nanoseconds
pub record Options : Type 0 where
  pub addr : Text
  pub password : Text
  pub db : ℤ
  pub max_retries : ℕ
  pub min_retry_backoff : ℕ
  pub max_retry_backoff : ℕ

-- The client of go-redis with the state of its connections.
pub record Driver : Type 1 where
  pub Client : Type 0
  pub Net : Type 0
  pub new_client : Options → Client
  pub ping : Client → Net → Option GoError
  pub close : Client → Net → Option GoError × Net

-- A closed client reports an error when it is closed again.
pub record IsDriver (D : Driver) : Type 0 where
  pub closed_again :
      (c : D.Client) (net : D.Net)
      → (D.close c net).0 ≡ none
      → (e : GoError) × ((D.close c (D.close c net).1).0 ≡ some e)

module _ (D : Driver) where
  -- a new client that answers a ping
  unfoldable pub connect : Options → D.Net → Result D.Client
  connect options net = elim (D.ping (D.new_client options) net) [
    | some e ↦ err e
    | none ↦ ok (D.new_client options)
  ]

  -- NewRedisClient
  unfoldable pub new_redis_client : Text → Text → ℤ → D.Net → Result D.Client
  unfolding connect
  new_redis_client addr password db net =
      connect
        (record {
          addr = addr;
          password = password;
          db = db;
          max_retries = 3;
          min_retry_backoff = 100000000;
          max_retry_backoff = 2000000000;
        })
        net

  -- the options of the other two constructors
  unfoldable pub plain_options : Text → Text → ℤ → Options
  plain_options addr password db = record {
    addr = addr;
    password = password;
    db = db;
    max_retries = 0;
    min_retry_backoff = 0;
    max_retry_backoff = 0;
  }

  -- RedisNullifierStore; the expiration is a time.Duration
  pub record RedisNullifierStore : Type 0 where
    pub client : D.Client
    pub expiration : ℤ

  -- RedisRevocationStore; its context is always context.Background()
  pub record RedisRevocationStore : Type 0 where
    pub client : D.Client

  -- NewRedisNullifierStoreWithClient
  unfoldable pub new_redis_nullifier_store_with_client : D.Client → ℤ → RedisNullifierStore
  new_redis_nullifier_store_with_client client expiration = record {
    client = client;
    expiration = expiration;
  }

  -- NewRedisNullifierStore
  unfoldable pub new_redis_nullifier_store :
      Text → Text → ℤ → ℤ → D.Net → Result RedisNullifierStore
  unfolding connect plain_options
  new_redis_nullifier_store addr password db expiration net = do
    client ← connect (plain_options addr password db) net
    ok (record { client = client; expiration = expiration })

  -- RedisNullifierStore.SetExpiration
  unfoldable pub set_expiration : ℤ → RedisNullifierStore → RedisNullifierStore
  set_expiration expiration s = record s { expiration = expiration }

  -- NewRedisRevocationStore
  unfoldable pub new_redis_revocation_store : D.Client → RedisRevocationStore
  new_redis_revocation_store client = record { client = client }

  -- NewRevocationStore
  unfoldable pub new_revocation_store : Text → Text → ℤ → D.Net → Result RedisRevocationStore
  unfolding connect plain_options
  new_revocation_store addr password db net = do
    client ← connect (plain_options addr password db) net
    ok (record { client = client })
