-- ===== src/Service/Config/Validate.antt =====
-- Config.Validate (internal/service/config.go) and ValidationErrors (validate.go).
pub mod Epochs
pub mod Policy
use blindvault.Base.{
  ℕ, ◌<◌, ℤ, pos, is_nonpositive, Bool, true, false, not, ◌&&◌, ◌||◌, Option, none, some, List, [],
  ◌∷◌, Text, bytes, is_empty, contains, length, ltb, ◌==◌, if◌then◌else◌,
}
use blindvault.Crypto.Blst.{Platform}
use blindvault.Service.Config.{Config, SecretSource, unset, inline, env, file, is_epoch_supported}
use blindvault.Service.Mode.{mode_production, mode_development, mode_test, is_valid}
use blindvault.Validation.{epoch}

-- The messages, one constructor for each, with the values that they quote.
pub data ConfigError : Type 0 where
  bad_mode : Text → ConfigError
  seed_not_loaded active_epoch_required : ConfigError
  active_epoch_format : Text → ConfigError
  seed_inline_forbidden memory_store_forbidden secret_required_in_production : ConfigError
  secret_short : ℕ → ConfigError
  secret_default issuer_required audience_required demo_forbidden : ConfigError
  redis_addr_required max_clients_nonpositive expiration_nonpositive : ConfigError
  secret_required store_required : ConfigError
  supported_epoch_format duplicate_epoch active_epoch_unsupported : Text → ConfigError

-- ValidationErrors.Err: nil, the only error, or the list
pub data Verdict : Type 0 where
  accepted : Verdict
  single : ConfigError → Verdict
  many : List ConfigError → Verdict

unfoldable pub verdict : List ConfigError → Verdict
verdict [] = accepted
verdict (e ∷ []) = single e
verdict (e ∷ f ∷ es) = many (e ∷ f ∷ es)

-- ValidationErrors.Add under a test, in front of what is added later
abbrev pub report : Bool → ConfigError → List ConfigError → List ConfigError
report b e later = if b then e ∷ later else later

abbrev pub is_inline : SecretSource → Bool
is_inline inline = true
is_inline _ = false

-- `len(es) == 0`
abbrev pub no_epochs : List Text → Bool
no_epochs [] = true
no_epochs (e ∷ es) = false

-- the tests on auth_secret of validateProduction
unfoldable pub secret_errors : Text → List ConfigError → List ConfigError
secret_errors secret later =
    if is_empty secret
    then secret_required_in_production ∷ later
    else report (ltb (length secret) 32) (secret_short (length secret)) (
        report (secret == bytes "super-secret-token" || secret == bytes "changeme") secret_default
          later)

abbrev pub default_dst : Text
default_dst = bytes "BCIS-V1-MESSAGE"

module _ {P : Platform} where
  -- validateProduction; the warning about the default DST is only logged
  unfoldable pub validate_production : Config P → List ConfigError → List ConfigError
  validate_production c later = report (is_inline c.master_seed_source) seed_inline_forbidden (
      report c.use_memory_store memory_store_forbidden (
        secret_errors c.auth_secret (
          report (is_empty c.jwt_issuer) issuer_required (
            report (is_empty c.jwt_audience) audience_required (
              report c.use_demo demo_forbidden (
                report (is_empty c.redis_addr) redis_addr_required (
                  report (is_nonpositive c.max_clients) max_clients_nonpositive
                    (report (is_nonpositive c.redis_expiration) expiration_nonpositive later))))))))

  -- the errors of validateNonProduction
  unfoldable pub validate_non_production : Config P → List ConfigError → List ConfigError
  validate_non_production c later =
      report (is_empty c.auth_secret) secret_required
        (report (is_empty c.redis_addr && not c.use_memory_store) store_required later)

  -- applyDevDefaults
  unfoldable pub apply_dev_defaults : Config P → Config P
  apply_dev_defaults c = record c {
    max_clients = if is_nonpositive c.max_clients then pos 100000 else c.max_clients;
    redis_expiration =
        if is_nonpositive c.redis_expiration then pos 2592000 else c.redis_expiration;
  }

  -- the changes of validateNonProduction
  unfoldable pub non_production_defaults : Config P → Config P
  unfolding apply_dev_defaults
  non_production_defaults c =
      apply_dev_defaults (record c { dst = if is_empty c.dst then default_dst else c.dst })

  -- the switch on the mode: the errors
  unfoldable pub mode_errors : Config P → List ConfigError → List ConfigError
  mode_errors c later =
      if c.mode == mode_production
      then validate_production c later
      else if c.mode == mode_development || c.mode == mode_test
      then validate_non_production c later
      else later

  -- the switch on the mode: the changes
  unfoldable pub mode_defaults : Config P → Config P
  mode_defaults c =
      if c.mode == mode_production
      then c
      else if c.mode == mode_development || c.mode == mode_test
      then non_production_defaults c
      else c

  -- SupportedEpochs defaults to the active epoch
  unfoldable pub epoch_defaults : Config P → Config P
  epoch_defaults c = record c {
    supported_epochs =
        if no_epochs c.supported_epochs && not (is_empty c.active_epoch)
        then c.active_epoch ∷ []
        else c.supported_epochs;
  }

-- the loop over SupportedEpochs; `seen` holds the epochs of the earlier rounds
unfoldable pub epoch_errors : List Text → List Text → List ConfigError → List ConfigError
epoch_errors seen [] later = later
epoch_errors seen (e ∷ es) later =
    let rest = epoch_errors (e ∷ seen) es later in
    report (not (epoch e)) (supported_epoch_format e)
      (report (contains seen e) (duplicate_epoch e) rest)

-- the tests on ActiveEpoch at the start
unfoldable pub active_epoch_errors : Text → List ConfigError → List ConfigError
active_epoch_errors active later =
    if is_empty active
    then active_epoch_required ∷ later
    else report (not (epoch active)) (active_epoch_format active) later

abbrev pub is_none {ℓ} : {A : Type ℓ} → Option A → Bool
is_none none = true
is_none (some a) = false

module _ {P : Platform} where
  -- the configuration that Validate leaves
  unfoldable pub normalise : Config P → Config P
  unfolding mode_defaults epoch_defaults
  normalise c = epoch_defaults (mode_defaults c)

  -- the tests of the end, on the configuration as it is then
  unfoldable pub listing_errors : Config P → List ConfigError
  unfolding is_epoch_supported
  listing_errors c = epoch_errors [] c.supported_epochs (
      report (not (is_empty c.active_epoch) && not (is_epoch_supported c c.active_epoch))
        (active_epoch_unsupported c.active_epoch) [])

  -- all that Validate finds, in its order
  unfoldable pub config_errors : Config P → List ConfigError
  unfolding is_valid
  config_errors c = report (not (is_valid c.mode)) (bad_mode c.mode) (
      report (is_none c.master_seed_enclave) seed_not_loaded
        (active_epoch_errors c.active_epoch (mode_errors c (listing_errors (normalise c)))))

  -- Config.Validate
  unfoldable pub validate : Config P → Verdict × Config P
  validate c = (verdict (config_errors c), normalise c)
