-- ===== src/Tests/ConfigRuns.antt =====
-- The theorems on the configuration, at a configuration for production.
use blindvault.Base.{
  ◌≡◌, refl, ap, trim_space, arith, true, none, [], Text, bytes, Text_discrete, ◌==◌, if◌then◌else◌,
}
use blindvault.Apperr.{Result, ok}
use blindvault.Service.Config.{is_epoch_supported}
use blindvault.Service.Config.Seed.{load_master_seed}
use blindvault.Service.Config.Validate.{accepted, validate}
use blindvault.Service.Config.Validate.Policy.{IsReady, IsHardened, validate_complete}
use blindvault.Service.Mode.{is_valid}
use blindvault.Tests.ToyBlst.{toy_platform}
use blindvault.Tests.ToyService.{toy_config}
use blindvault.Validation
use blindvault.Validation.Hex.{decode_string, from_hex_char}

pub production : (toy_config.mode == bytes "production") ≡ true
unfolding Text_discrete
production = refl

pub ready : IsReady toy_config
unfolding Text_discrete is_valid is_epoch_supported Validation.epoch Validation.is_digit
ready = record {
  mode = refl;
  sealed = refl;
  active = refl;
  supported = refl;
  formats = (refl, (refl, tt));
  distinct = (refl, (refl, tt));
}

pub hardened : IsHardened toy_config
unfolding Text_discrete
hardened = record {
  seed = refl;
  memory = refl;
  secret_length = omega arith;
  secret_token = refl;
  secret_changeme = refl;
  issuer = refl;
  audience = refl;
  demo = refl;
  redis = refl;
  clients = refl;
  expiration = refl;
}

validate_complete_example : validate toy_config ≡ (accepted, toy_config)
validate_complete_example = validate_complete toy_config production ready hardened

passes : (validate toy_config).0 ≡ accepted
passes = ap (λ r. r.0) (validate_complete toy_config production ready hardened)

-- an environment with one variable
abbrev getenv : Text → Text
getenv name =
    if name == bytes "BLINDVAULT_SEED_FILE"
    then bytes "/run/seed"
    else if name == bytes "SUPPORTED_EPOCHS"
    then bytes "2026-01, 2026-02"
    else []

abbrev read_file : Text → Result Text
read_file name = ok (bytes " 00112233445566778899aabbccddeeff00112233445566778899aabbccddeeff ")

loaded : (load_master_seed toy_platform getenv read_file toy_config).0 ≡ none
unfolding load_master_seed Text_discrete trim_space decode_string from_hex_char
loaded = refl
