-- ===== src/Tests/StartupRuns.antt =====
-- A server process in production, with its configuration in a file, its seed in the environment
-- and one Redis.
use blindvault.Base.{
  pos, ◌≡◌, refl, false, none, some, [], ◌∷◌, Text, bytes, Text_discrete, Option, ◌==◌, arith,
  if◌then◌else◌,
}
use blindvault.Api.RateLimiter.{new_rate_limiter}
use blindvault.Api.Server.{nullifier_expiration, server_validator}
use blindvault.Api.Server.Build.{
  Built, redis_stores, revocation_client, open_stores, build, shutdown,
}
use blindvault.Apperr.{GoError, plain, ok}
use blindvault.Service.Config.{Config, unset}
use blindvault.Service.Config.Overrides.{
  apply_env_overrides, text_setting, int_setting, bool_setting, epochs_setting,
}
use blindvault.Service.Config.Seed.{load_master_seed, IsSealed}
use blindvault.Service.Config.Validate.Policy.{IsReady, IsHardened, validate_complete}
use blindvault.Startup.Configure.{
  Env, Host, goes_on, environment, yaml_config, load_yaml_config, seeded, validated, configure,
}
use blindvault.Startup.Configured.{configure-IsReady}
use blindvault.Startup.Run.{Flags, IsConnected, prepare, prepare-IsConnected, shutdown_shared}
use blindvault.Storage.Redis.Connect.{
  Driver, IsDriver, connect, new_redis_client, new_redis_nullifier_store_with_client,
  new_redis_revocation_store,
}
use blindvault.Tests.ConfigRuns.{production, ready, hardened}
use blindvault.Tests.ToyBlst.{toy_platform}
use blindvault.Tests.ToyServer.{toy_rate}
use blindvault.Tests.ToyService.{toy_config}
use blindvault.Validation.Hex.{decode_string, from_hex_char}

-- the configuration in the file: without the seed
abbrev written : Config toy_platform
written = record toy_config { master_seed_enclave = none; master_seed_source = unset }

abbrev toy_host : Host toy_platform
toy_host = record {
  stat = λ path. none;
  read_file = λ path. ok (bytes "mode: production");
  load = λ path env. ok env;
  overload = λ path env. ok env;
  unmarshal = λ text c. ok written;
}

abbrev toy_env : Env
toy_env name =
    if name == bytes "BLINDVAULT_MASTER_SEED_HEX"
    then bytes "3031323334353637383961626364656630313233343536373839616263646566"
    else []

abbrev flags : Flags
flags = record { config_path = bytes "config.yaml"; env_file = []; env_override = false }

-- a client is its address; the state of the connections is the list of what was closed
abbrev toy_driver : Driver
toy_driver = record {
  Client = Text;
  Net = Option Text;
  new_client = λ o. o.addr;
  ping = λ c net. none;
  close = λ c net. elim net [
    | none ↦ (none, some c)
    | some d ↦ (some (plain (bytes "client is closed")), some d)
  ];
}

closed_again :
    (c : Text) (net : Option Text)
    → (toy_driver.close c net).0 ≡ none
    → (toy_driver.close c (toy_driver.close c net).1).0 ≡ some (plain (bytes "client is closed"))
closed_again c none h = refl
closed_again c (some d) h = refl

toy_IsDriver : IsDriver toy_driver
toy_IsDriver = record {
  closed_again = λ c net h. (plain (bytes "client is closed"), closed_again c net h);
}

sealed : seeded toy_platform toy_host toy_env written ≡ goes_on toy_config
unfolding seeded load_master_seed decode_string from_hex_char Text_discrete
sealed = refl

overridden : apply_env_overrides toy_env written ≡ written
unfolding apply_env_overrides text_setting int_setting bool_setting epochs_setting Text_discrete
overridden = refl

valid : validated toy_platform toy_host toy_config ≡ goes_on toy_config
unfolding validated
valid = ground (arith, validate_complete toy_config production ready hardened)

configured :
    configure toy_platform toy_host (bytes "config.yaml") [] false toy_env ≡ goes_on toy_config
unfolding configure environment yaml_config load_yaml_config
configured = rw (overridden, sealed, valid) refl

configure-IsReady_example : IsReady toy_config × IsSealed toy_platform toy_config
configure-IsReady_example =
    configure-IsReady toy_platform toy_host (bytes "config.yaml") [] false toy_env toy_config
      configured

abbrev server : Built toy_driver toy_platform toy_rate
server = record {
  addr = bytes ":8443";
  config = toy_config;
  stores =
      redis_stores (record { client = bytes "localhost:6379"; expiration = pos 2592000 })
        (record { client = bytes "localhost:6379" });
  jwt_validator = server_validator toy_config;
  rate_limiter = new_rate_limiter toy_rate (pos 60) (pos 5) (pos 2);
  demo_store = none;
}

built : build toy_driver toy_platform toy_rate toy_config none ≡ ok server
unfolding build open_stores revocation_client new_redis_client connect nullifier_expiration
    new_redis_nullifier_store_with_client new_redis_revocation_store
built = refl

prepared : prepare toy_platform toy_host toy_driver toy_rate flags toy_env none ≡ goes_on server
unfolding prepare
prepared = rw (configured, built) refl

prepare-IsConnected_example :
    IsConnected toy_platform toy_host toy_driver toy_rate server none
    × IsReady toy_config
    × IsHardened toy_config
    × IsSealed toy_platform toy_config
prepare-IsConnected_example =
    prepare-IsConnected toy_platform toy_host toy_driver toy_rate flags toy_env none server prepared
      production

shutdown_shared_example :
    (e : GoError) × ((shutdown toy_driver toy_platform toy_rate none server none).0
      ≡ (e ∷ [], none))
shutdown_shared_example =
    shutdown_shared toy_platform toy_host toy_driver toy_rate none server none
      (record { client = bytes "localhost:6379"; expiration = pos 2592000 })
      (record { client = bytes "localhost:6379" }) toy_IsDriver refl refl refl
