-- ===== src/Tests/ToyService.antt =====
-- A credential service over the toy groups and the store in memory, with a credential for it.
use blindvault.Base.{pos, false, none, some, [], ◌∷◌, Text, bytes}
use blindvault.Context.{Context}
use blindvault.Service.Config.{Config, env}
use blindvault.Service.Credentials.{Service}
use blindvault.Service.Credentials.Consume.{Redemption}
use blindvault.Service.Credentials.Consume.Acceptance.{credential}
use blindvault.Storage.Memory
use blindvault.Storage.RevocationMemory
use blindvault.Tests.ToyBlst.{toy_blst, toy_platform, two}

abbrev pub seed : Text
seed = bytes "0123456789abcdef0123456789abcdef"

abbrev pub epoch : Text
epoch = bytes "2026-01"

abbrev pub class : Text
class = bytes "vote"

abbrev pub toy_config : Config toy_platform
toy_config = record {
  mode = bytes "production";
  master_seed_enclave = some seed;
  master_seed_hex = [];
  master_seed_source = env;
  listen_addr = bytes ":8443";
  active_epoch = epoch;
  supported_epochs = bytes "2025-12" ∷ epoch ∷ [];
  dst = bytes "BCIS-V1";
  auth_secret = bytes "a secret of more than thirty-two bytes";
  jwt_issuer = bytes "issuer";
  jwt_audience = bytes "audience";
  redis_addr = bytes "localhost:6379";
  redis_password = [];
  redis_db = pos 0;
  redis_expiration = pos 2592000;
  revocation_redis_addr = [];
  revocation_redis_password = [];
  revocation_redis_db = pos 0;
  rate_limit_burst = pos 5;
  rate_limit = pos 60;
  max_clients = pos 2;
  use_memory_store = false;
  use_demo = false;
}

abbrev pub toy_service : Service toy_platform Memory.memory_store RevocationMemory.memory_store
toy_service = record {
  config = toy_config;
  store = [];
  revocation_store = some [];
  metrics = some [];
}

-- a request that is never cancelled
abbrev pub quiet : Context
quiet look = none

-- a credential for the witness `two`
abbrev pub toy_credential : Redemption
toy_credential = credential toy_blst two two class epoch
