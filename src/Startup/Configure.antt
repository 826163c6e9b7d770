-- ===== src/Startup/Configure.antt =====
-- The configuration of the server process (cmd/server/main.go, run up to NewServer).
use blindvault.Base.{pos, Bool, false, Option, none, some, [], Text, bytes, is_empty, if◌then◌else◌}
use blindvault.Apperr.{GoError, wrapped, Result, ok, err}
use blindvault.Crypto.Blst.{Platform}
use blindvault.Service.Config.{Config, unset}
use blindvault.Service.Config.Overrides.{apply_env_overrides}
use blindvault.Service.Config.Seed.{load_master_seed}
use blindvault.Service.Config.Validate.{Verdict, accepted, single, many, validate}

-- the variables of the environment: os.Getenv
abbrev pub Env : Type 0
Env = Text → Text

-- os, github.com/joho/godotenv and gopkg.in/yaml.v3. Loading a file gives the environment that
-- it leaves; decoding YAML changes the fields that the file sets.
pub record Host (P : Platform) : Type 0 where
  pub stat : Text → Option GoError
  pub read_file : Text → Result Text
  pub load : Text → Env → Result Env
  pub overload : Text → Env → Result Env
  pub unmarshal : Text → Config P → Result (Config P)

-- What run returns as an error: one with a prefix, or the list of Validate.
pub data RunError : Type 0 where
  failed : GoError → RunError
  invalid : Verdict → RunError

-- The result of a stage of run.
pub data Stage {ℓ} (A : Type ℓ) : Type ℓ where
  goes_on : A → Stage A
  stops : RunError → Stage A

infixl 5 ◌>>=◌
abbrev pub ◌>>=◌ {ℓ κ} : {A : Type ℓ} {B : Type κ} → Stage A → (A → Stage B) → Stage B
stops e >>= next = stops e
goes_on a >>= next = next a

-- `return fmt.Errorf("<prefix>: %w", err)`
abbrev pub stage {ℓ} : {A : Type ℓ} → Text → Result A → Stage A
stage prefix (ok a) = goes_on a
stage prefix (err e) = stops (failed (wrapped prefix e))

module _ (P : Platform) where
  -- &service.Config{}
  abbrev pub zero_config : Config P
  zero_config = record {
    mode = [];
    master_seed_enclave = none;
    master_seed_hex = [];
    master_seed_source = unset;
    listen_addr = [];
    active_epoch = [];
    supported_epochs = [];
    dst = [];
    auth_secret = [];
    jwt_issuer = [];
    jwt_audience = [];
    redis_addr = [];
    redis_password = [];
    redis_db = pos 0;
    redis_expiration = pos 0;
    revocation_redis_addr = [];
    revocation_redis_password = [];
    revocation_redis_db = pos 0;
    rate_limit_burst = pos 0;
    rate_limit = pos 0;
    max_clients = pos 0;
    use_memory_store = false;
    use_demo = false;
  }

  module _ (H : Host P) where
    -- loadEnvFile
    unfoldable pub load_env_file : Text → Bool → Env → Result Env
    load_env_file path override env = elim (H.stat path) [
      | some e ↦ err (wrapped (bytes "stat") e)
      | none ↦ if override then H.overload path env else H.load path env
    ]

    -- the first step of run: an env file that is named is loaded
    unfoldable pub environment : Text → Bool → Env → Stage Env
    unfolding load_env_file
    environment env_file override env =
        if is_empty env_file
        then goes_on env
        else stage (bytes "load env file") (load_env_file env_file override env)

    -- loadYAMLConfig
    unfoldable pub load_yaml_config : Text → Config P → Result (Config P)
    load_yaml_config path c = elim (H.read_file path) [
      | err e ↦ err e
      | ok text ↦ H.unmarshal text c
    ]

    -- the second step: a missing file is skipped
    unfoldable pub yaml_config : Text → Stage (Config P)
    unfolding load_yaml_config
    yaml_config path = elim (H.stat path) [
      | some e ↦ goes_on zero_config
      | none ↦ stage (bytes "load config") (load_yaml_config path zero_config)
    ]

    -- LoadMasterSeed, with the prefix of run
    unfoldable pub seeded : Env → Config P → Stage (Config P)
    seeded env c =
        let (failure, c') = load_master_seed P env H.read_file c in
        elim failure [
          | some e ↦ stops (failed (wrapped (bytes "load master seed") e))
          | none ↦ goes_on c'
        ]

    -- Validate
    unfoldable pub validated : Config P → Stage (Config P)
    validated c =
        let (v, c') = validate c in
        elim v [
          | accepted ↦ goes_on c'
          | single e ↦ stops (invalid (single e))
          | many es ↦ stops (invalid (many es))
        ]

    -- run up to NewServer; the warning about dotenv files in production is only logged
    unfoldable pub configure : Text → Text → Bool → Env → Stage (Config P)
    unfolding environment yaml_config seeded validated
    configure config_path env_file override env = do
      env' ← environment env_file override env
      c ← yaml_config config_path
      sealed ← seeded env' (apply_env_overrides env' c)
      validated sealed
