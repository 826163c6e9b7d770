-- ===== src/Service/Config.antt =====
-- internal/service/config.go: the settings of the service.
pub mod Overrides
pub mod Seed
pub mod Validate
use blindvault.Base.{ℕ, ℤ, Bool, Option, List, Text, contains}
use blindvault.Crypto.Blst.{Platform}

-- SecretSource; `unset` is the zero value
pub data SecretSource : Type 0 where
  unset inline env file : SecretSource

-- Config
pub record Config (P : Platform) : Type 0 where
  pub mode : Text
  pub master_seed_enclave : Option P.Enclave
  pub master_seed_hex : Text
  pub master_seed_source : SecretSource
  pub listen_addr : Text
  pub active_epoch : Text
  pub supported_epochs : List Text
  pub dst : Text
  pub auth_secret : Text
  pub jwt_issuer : Text
  pub jwt_audience : Text
  pub redis_addr : Text
  pub redis_password : Text
  pub redis_db : ℤ
  pub redis_expiration : ℤ
  pub revocation_redis_addr : Text
  pub revocation_redis_password : Text
  pub revocation_redis_db : ℤ
  pub rate_limit_burst : ℤ
  pub rate_limit : ℤ
  pub max_clients : ℤ
  pub use_memory_store : Bool
  pub use_demo : Bool

-- Config.IsEpochSupported: the loop over the list
unfoldable pub is_epoch_supported : {P : Platform} → Config P → Text → Bool
is_epoch_supported c epoch = contains c.supported_epochs epoch
