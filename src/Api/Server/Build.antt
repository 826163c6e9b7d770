-- ===== src/Api/Server/Build.antt =====
-- NewServer, Start and Shutdown (internal/api/server.go): the stores that a configuration asks for,
-- and the life of a server.
use blindvault.Base.{ℕ, Option, none, some, List, [], ◌∷◌, Text, Map, is_empty, if◌then◌else◌}
use blindvault.Apperr.{GoError, Result, ok, ◌>>=◌}
use blindvault.Api.RateLimiter.{Rate, RateLimiter, cleanup, new_rate_limiter}
use blindvault.Api.Server.{server_validator, nullifier_expiration}
use blindvault.Auth.{JwtValidator}
use blindvault.Crypto.Blst.{Platform}
use blindvault.Service.Config.{Config}
use blindvault.Storage.Redis.Connect.{
  Driver, RedisNullifierStore, RedisRevocationStore, new_redis_client,
  new_redis_nullifier_store_with_client, new_redis_revocation_store,
}

module _ (D : Driver) where
  -- The stores of a server: both in memory, or both in Redis.
  pub data Stores : Type 0 where
    memory_stores : Stores
    redis_stores : RedisNullifierStore D → RedisRevocationStore D → Stores

  module _ {P : Platform} where
    -- a separate Redis for the revocations, if one is configured
    unfoldable pub revocation_client : Config P → D.Client → D.Net → Result D.Client
    revocation_client c main net =
        if is_empty c.revocation_redis_addr
        then ok main
        else new_redis_client D c.revocation_redis_addr c.revocation_redis_password
            c.revocation_redis_db net

    -- the first half of NewServer
    unfoldable pub open_stores : Config P → D.Net → Result Stores
    unfolding revocation_client
    open_stores c net = if c.use_memory_store then ok memory_stores else do
      client ← new_redis_client D c.redis_addr c.redis_password c.redis_db net
      rev_client ← revocation_client c client net
      ok (
          redis_stores (new_redis_nullifier_store_with_client D client (nullifier_expiration c))
            (new_redis_revocation_store D rev_client))

  module _ (P : Platform) (R : Rate) where
    -- Server, with the stores by their connections; what the routes do with stores that are open
    -- is Api.Server
    pub record Built : Type 0 where
      pub addr : Text
      pub config : Config P
      pub stores : Stores
      pub jwt_validator : JwtValidator
      pub rate_limiter : RateLimiter R
      pub demo_store : Option (Map Text)

    -- NewServer
    unfoldable pub build : Config P → D.Net → Result Built
    build c net = do
      stores ← open_stores c net
      ok (record {
        addr = c.listen_addr;
        config = c;
        stores = stores;
        jwt_validator = server_validator c;
        rate_limiter = new_rate_limiter R c.rate_limit c.rate_limit_burst c.max_clients;
        demo_store = if c.use_demo then some [] else none;
      })

    -- Close of the credential service at these stores: both are closed, and the first error is
    -- returned
    unfoldable pub close_stores : Stores → D.Net → Option GoError × D.Net
    close_stores memory_stores net = (none, net)
    close_stores (redis_stores nullifiers revocations) net =
        let (e, net1) = D.close nullifiers.client net in
        let (e', net2) = D.close revocations.client net1 in
        (elim e [ some f ↦ some f | none ↦ e' ], net2)

    -- Server.Shutdown: the errors that it logs, and what it returns, which is the result of the
    -- HTTP server's Shutdown
    unfoldable pub shutdown :
        Option GoError → Built → D.Net → (List GoError × Option GoError) × D.Net
    unfolding close_stores
    shutdown http s net =
        let (e, net') = close_stores s.stores net in
        ((elim e [ none ↦ [] | some f ↦ f ∷ [] ], http), net')

-- the goroutine of Start: a cleanup at each tick, given by its time
unfoldable pub clean_at : {R : Rate} → List ℕ → RateLimiter R → RateLimiter R
clean_at [] rl = rl
clean_at {R = R} (tick ∷ ticks) rl = clean_at ticks (cleanup R tick rl)
