-- ===== src/Service/Config/Overrides.antt =====
-- Config.ApplyEnvOverrides (internal/service/config.go): what the environment overrides.
use blindvault.Base.{
  ◌≡◌, refl, ℤ, Bool, none, some, List, map, Text, bytes, is_empty, trim_space, split, atoi,
  parse_bool, if◌then◌else◌, arith,
}
use blindvault.Crypto.Blst.{Platform}
use blindvault.Service.Config.{Config}

-- the value of a setting, where `var` is the value of its environment variable, "" if it is unset
unfoldable pub text_setting : Text → Text → Text
text_setting var old = if is_empty var then old else var

unfoldable pub int_setting : Text → ℤ → ℤ
int_setting var old = if is_empty var then old else elim (atoi var) [ none ↦ old | some n ↦ n ]

unfoldable pub bool_setting : Text → Bool → Bool
bool_setting var old =
    if is_empty var then old else elim (parse_bool var) [ none ↦ old | some b ↦ b ]

unfoldable pub epochs_setting : Text → List Text → List Text
epochs_setting var old = if is_empty var then old else map trim_space (split b',' var)

-- Config.ApplyEnvOverrides; `getenv` is os.Getenv
unfoldable pub apply_env_overrides : {P : Platform} → (Text → Text) → Config P → Config P
apply_env_overrides getenv c = record c {
  mode = text_setting (getenv (bytes "BLINDVAULT_MODE")) c.mode;
  active_epoch = text_setting (getenv (bytes "ACTIVE_EPOCH")) c.active_epoch;
  supported_epochs = epochs_setting (getenv (bytes "SUPPORTED_EPOCHS")) c.supported_epochs;
  dst = text_setting (getenv (bytes "DST")) c.dst;
  auth_secret = text_setting (getenv (bytes "AUTH_SECRET")) c.auth_secret;
  jwt_issuer = text_setting (getenv (bytes "JWT_ISSUER")) c.jwt_issuer;
  jwt_audience = text_setting (getenv (bytes "JWT_AUDIENCE")) c.jwt_audience;
  listen_addr = text_setting (getenv (bytes "LISTEN_ADDR")) c.listen_addr;
  redis_addr = text_setting (getenv (bytes "REDIS_ADDR")) c.redis_addr;
  redis_password = text_setting (getenv (bytes "REDIS_PASSWORD")) c.redis_password;
  redis_db = int_setting (getenv (bytes "REDIS_DB")) c.redis_db;
  redis_expiration = int_setting (getenv (bytes "REDIS_EXPIRATION")) c.redis_expiration;
  revocation_redis_addr =
      text_setting (getenv (bytes "REVOCATION_REDIS_ADDR")) c.revocation_redis_addr;
  revocation_redis_password =
      text_setting (getenv (bytes "REVOCATION_REDIS_PASSWORD")) c.revocation_redis_password;
  revocation_redis_db = int_setting (getenv (bytes "REVOCATION_REDIS_DB")) c.revocation_redis_db;
  use_memory_store = bool_setting (getenv (bytes "USE_MEMORY_STORE")) c.use_memory_store;
  use_demo = bool_setting (getenv (bytes "USE_DEMO")) c.use_demo;
  rate_limit_burst = int_setting (getenv (bytes "RATE_LIMIT_BURST")) c.rate_limit_burst;
  rate_limit = int_setting (getenv (bytes "RATE_LIMIT_REQUESTS")) c.rate_limit;
  max_clients = int_setting (getenv (bytes "MAX_CLIENTS")) c.max_clients;
}

text_setting_twice :
    (var old : Text) → text_setting var (text_setting var old) ≡ text_setting var old
unfolding text_setting
text_setting_twice var old = ground arith

int_setting_twice :
    (var : Text) (old : ℤ) → int_setting var (int_setting var old) ≡ int_setting var old
unfolding int_setting
int_setting_twice var old = ground arith

bool_setting_twice :
    (var : Text) (old : Bool) → bool_setting var (bool_setting var old) ≡ bool_setting var old
unfolding bool_setting
bool_setting_twice var old = ground arith

epochs_setting_twice :
    (var : Text) (old : List Text)
    → epochs_setting var (epochs_setting var old) ≡ epochs_setting var old
unfolding epochs_setting
epochs_setting_twice var old = ground arith

-- Applying the environment a second time changes nothing.
pub apply_env_overrides_twice :
    {P : Platform} (getenv : Text → Text) (c : Config P)
    → apply_env_overrides getenv (apply_env_overrides getenv c) ≡ apply_env_overrides getenv c
unfolding apply_env_overrides
apply_env_overrides_twice getenv c =
    simp (text_setting_twice, int_setting_twice, bool_setting_twice, epochs_setting_twice)

-- The environment never touches the master seed: not the sealed one, not the one from the
-- configuration file, not the record of where it came from.
pub apply_env_overrides_seed :
    {P : Platform} (getenv : Text → Text) (c : Config P)
    → ((apply_env_overrides getenv c).master_seed_enclave ≡ c.master_seed_enclave)
      × ((apply_env_overrides getenv c).master_seed_hex ≡ c.master_seed_hex)
      × ((apply_env_overrides getenv c).master_seed_source ≡ c.master_seed_source)
unfolding apply_env_overrides
apply_env_overrides_seed getenv c = (refl, refl, refl)
