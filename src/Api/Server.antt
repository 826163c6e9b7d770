-- ===== src/Api/Server.antt =====
-- internal/api/server.go: the state of the server, and the parts that it is made of.
pub mod Expiration
pub mod Build
pub mod Cleanup
pub mod Tokens
use blindvault.Base.{ℕ, ℤ, Bool, Option, none, some, [], Text, Map, if◌then◌else◌}
use blindvault.Apperr.{Result}
use blindvault.Api.RateLimiter.{Rate, RateLimiter, new_rate_limiter}
use blindvault.Api.Types.{Body, Decoders, Validator}
use blindvault.Auth.{Claims, Jwt, JwtValidator, new_jwt_validator}
use blindvault.Context.{Context}
use blindvault.Crypto.Blst.{Blst, Platform}
use blindvault.Metrics.{Event, Reporter, record_event}
use blindvault.Service.Config.{Config}
use blindvault.Service.Credentials.{Service}
use blindvault.Storage.{NullifierStore, RevocationStore}

-- What the server calls and the repository does not hold.
pub record Libraries : Type 1 where
  pub platform : Platform
  pub blst : Blst
  pub rate : Rate
  pub jwt : Jwt
  pub validator : Validator
  pub decoders : Decoders
  -- net.ParseIP(host), followed by IsLoopback or IsPrivate
  pub is_trusted_proxy : Text → Bool

-- An HTTP request with its surroundings: the context, the time, and what the random generator
-- yields while it is served. `claims` is what the context carries.
pub record Request : Type 0 where
  pub context : Context
  pub now : ℕ
  pub random : Result Text
  pub ticket_id : Text
  pub method : Text
  pub path : Text
  pub remote_addr : Text
  pub authorization : Text
  pub forwarded_for : Text
  pub query_ticket_id : Text
  pub body : Body
  pub claims : Option Claims

module _ (L : Libraries) (N : NullifierStore) (V : RevocationStore) where
  -- Server. The credential service holds the reporter and the revocation store; the server's
  -- pointers to them are the same pointers.
  pub record Server : Type 0 where
    pub service : Service L.platform N V
    pub jwt_validator : JwtValidator
    pub rate_limiter : RateLimiter L.rate
    pub demo_store : Option (Map Text)

-- the validator that NewServer makes: only the secret is taken from the configuration
unfoldable pub server_validator : {P : Platform} → Config P → JwtValidator
unfolding new_jwt_validator
server_validator c = new_jwt_validator c.auth_secret [] []

-- the expiration that NewServer hands to the Redis nullifier store, as a time.Duration:
-- time.Duration(cfg.RedisExpiration)
unfoldable pub nullifier_expiration : {P : Platform} → Config P → ℤ
nullifier_expiration c = c.redis_expiration

module _ {L : Libraries} {N : NullifierStore} {V : RevocationStore} where
  -- NewServer, over stores that have been opened
  unfoldable pub new_server : Config L.platform → N.State → V.State → Reporter → Server L N V
  unfolding server_validator
  new_server c store revocation_store metrics = record {
    service = record {
      config = c;
      store = store;
      revocation_store = some revocation_store;
      metrics = metrics;
    };
    jwt_validator = server_validator c;
    rate_limiter = new_rate_limiter L.rate c.rate_limit c.rate_limit_burst c.max_clients;
    demo_store = if c.use_demo then some [] else none;
  }

  -- s.metrics.Record...
  unfoldable pub count : Event → Server L N V → Server L N V
  unfolding record_event
  count e s = record s { service = record s.service { metrics = record_event e s.service.metrics } }
