-- ===== src/Service/Config/Validate/Policy.antt =====
-- What a configuration that Validate accepts looks like (internal/service/config.go).
use blindvault.Base.{
  ◌≤◌, ◌≡◌, refl, is_nonpositive, true, false, List, [], ◌∷◌, Text, bytes, is_empty, contains,
  length, All, IsDistinct, ◌==◌, if_both, arith,
}
use blindvault.Crypto.Blst.{Platform}
use blindvault.Service.Config.{Config, is_epoch_supported}
use blindvault.Service.Config.Validate.{
  ConfigError, accepted, verdict, is_inline, is_none, no_epochs, secret_errors, validate_production,
  validate_non_production, apply_dev_defaults, non_production_defaults, mode_errors, normalise,
  active_epoch_errors, listing_errors, config_errors, validate,
}
use blindvault.Service.Config.Validate.Epochs.{epoch_errors_nil, epoch_errors_of_distinct}
use blindvault.Service.Mode.{mode_production, is_valid}
use blindvault.Validation.{epoch}
use blindvault.Validation.Formats.{epoch_nonempty}

verdict_accepted : (es : List ConfigError) → verdict es ≡ accepted → es ≡ []
unfolding verdict
verdict_accepted [] h = refl
verdict_accepted (e ∷ []) h = cc
verdict_accepted (e ∷ f ∷ es) h = cc

no_epochs_of_supported : (es : List Text) (e : Text) → contains es e ≡ true → no_epochs es ≡ false
no_epochs_of_supported [] e h = cc
no_epochs_of_supported (x ∷ es) e h = refl

module _ {P : Platform} where
  -- What holds in every mode.
  pub record IsReady (c : Config P) : Type 0 where
    pub mode : is_valid c.mode ≡ true
    pub sealed : is_none c.master_seed_enclave ≡ false
    pub active : epoch c.active_epoch ≡ true
    pub supported : is_epoch_supported c c.active_epoch ≡ true
    pub formats : All (λ e. epoch e ≡ true) c.supported_epochs
    pub distinct : IsDistinct c.supported_epochs

  -- What holds in production.
  pub record IsHardened (c : Config P) : Type 0 where
    pub seed : is_inline c.master_seed_source ≡ false
    pub memory : c.use_memory_store ≡ false
    pub secret_length : 32 ≤ length c.auth_secret
    pub secret_token : (c.auth_secret == bytes "super-secret-token") ≡ false
    pub secret_changeme : (c.auth_secret == bytes "changeme") ≡ false
    pub issuer : is_empty c.jwt_issuer ≡ false
    pub audience : is_empty c.jwt_audience ≡ false
    pub demo : c.use_demo ≡ false
    pub redis : is_empty c.redis_addr ≡ false
    pub clients : is_nonpositive c.max_clients ≡ false
    pub expiration : is_nonpositive c.redis_expiration ≡ false

  record Passed (c : Config P) : Type 0 where
    mode : is_valid c.mode ≡ true
    sealed : is_none c.master_seed_enclave ≡ false
    active : epoch c.active_epoch ≡ true
    errors : mode_errors c (listing_errors (normalise c)) ≡ []

  Passed-of_no_errors : (c : Config P) → config_errors c ≡ [] → Passed c
  unfolding config_errors active_epoch_errors
  Passed-of_no_errors c h = record {
    mode = ground arith;
    sealed = ground arith;
    active = ground arith;
    errors = ground arith;
  }

  IsHardened-of_no_errors :
      (c : Config P) (later : List ConfigError)
      → validate_production c later ≡ []
      → IsHardened c × (later ≡ [])
  unfolding validate_production secret_errors
  IsHardened-of_no_errors c later h = (
    record {
      seed = ground arith;
      memory = ground arith;
      secret_length = ground arith;
      secret_token = ground arith;
      secret_changeme = ground arith;
      issuer = ground arith;
      audience = ground arith;
      demo = ground arith;
      redis = ground arith;
      clients = ground arith;
      expiration = ground arith;
    },
    ground arith,
  )

  later_of_mode : (c : Config P) (later : List ConfigError) → mode_errors c later ≡ [] → later ≡ []
  unfolding mode_errors validate_non_production
  later_of_mode c later h =
      if_both (λ es. es ≡ [] → later ≡ []) (c.mode == mode_production) _ _
        (λ e. (IsHardened-of_no_errors c later e).1) (λ e. ground arith) h

  -- the fields that the tests of IsReady read
  normalise_fields :
      (c : Config P)
      → ((normalise c).mode ≡ c.mode)
        × ((normalise c).master_seed_enclave ≡ c.master_seed_enclave)
        × ((normalise c).active_epoch ≡ c.active_epoch)
  unfolding normalise non_production_defaults apply_dev_defaults
  normalise_fields c = (ground arith, ground arith, ground arith)

  -- Validate leaves the mode as it is.
  pub normalise_mode : (c : Config P) → (validate c).1.mode ≡ c.mode
  unfolding validate normalise non_production_defaults apply_dev_defaults
  normalise_mode c = ground arith

  -- Validate leaves the master seed as it is.
  pub normalise_seed :
      (c : Config P)
      → ((validate c).1.master_seed_enclave ≡ c.master_seed_enclave)
        × ((validate c).1.master_seed_hex ≡ c.master_seed_hex)
  unfolding validate normalise non_production_defaults apply_dev_defaults
  normalise_seed c = (ground arith, ground arith)

  listing_of_no_errors :
      (c : Config P)
      → listing_errors c ≡ []
      → epoch c.active_epoch ≡ true
      → All (λ e. epoch e ≡ true) c.supported_epochs
        × IsDistinct c.supported_epochs
        × (is_epoch_supported c c.active_epoch ≡ true)
  unfolding listing_errors
  listing_of_no_errors c h active =
      let (formats, distinct, found) = epoch_errors_nil c.supported_epochs _ h in
      let nonempty = epoch_nonempty c.active_epoch active in (formats, distinct, ground arith)

  -- A configuration that Validate accepts, as Validate leaves it, has a known mode, a sealed seed
  -- and a well-formed active epoch, which is one of the supported epochs; these are all well formed
  -- and distinct.
  pub validate-IsReady : (c : Config P) → (validate c).0 ≡ accepted → IsReady (validate c).1
  unfolding validate
  validate-IsReady c h =
      let p = Passed-of_no_errors c (verdict_accepted (config_errors c) h) in
      let (same_mode, same_seed, same_epoch) = normalise_fields c in
      let listed =
        listing_of_no_errors (normalise c) (later_of_mode c _ p.errors) (rw same_epoch p.active) in
      record {
        mode = rw same_mode p.mode;
        sealed = rw same_seed p.sealed;
        active = rw same_epoch p.active;
        supported = listed.2;
        formats = listed.0;
        distinct = listed.1;
      }

  -- In production an accepted configuration also has a secret of at least 32 bytes that is no
  -- well-known default, a seed that does not come from the configuration file, an issuer and an
  -- audience, a Redis address, and neither the memory store nor the demo endpoints.
  pub validate-IsHardened :
      (c : Config P)
      → (c.mode == mode_production) ≡ true
      → (validate c).0 ≡ accepted
      → IsHardened (validate c).1
  unfolding validate normalise mode_errors
  validate-IsHardened c production h =
      let p = Passed-of_no_errors c (verdict_accepted (config_errors c) h) in
      let hard = (IsHardened-of_no_errors c (listing_errors (normalise c)) (ground arith)).0 in
      record {
        seed = ground (arith, hard.seed);
        memory = ground (arith, hard.memory);
        secret_length = ground (arith, hard.secret_length);
        secret_token = ground (arith, hard.secret_token);
        secret_changeme = ground (arith, hard.secret_changeme);
        issuer = ground (arith, hard.issuer);
        audience = ground (arith, hard.audience);
        demo = ground (arith, hard.demo);
        redis = ground (arith, hard.redis);
        clients = ground (arith, hard.clients);
        expiration = ground (arith, hard.expiration);
      }

  normalise_production :
      (c : Config P) → (c.mode == mode_production) ≡ true → IsReady c → normalise c ≡ c
  unfolding normalise is_epoch_supported
  normalise_production c production r =
      ground (arith, no_epochs_of_supported c.supported_epochs c.active_epoch r.supported)

  listing_errors_nil : (c : Config P) → IsReady c → listing_errors c ≡ []
  unfolding listing_errors
  listing_errors_nil c r =
      rw (epoch_errors_of_distinct c.supported_epochs _ r.formats r.distinct)
        (ground (arith, r.supported))

  validate_production_nil : (c : Config P) → IsHardened c → validate_production c [] ≡ []
  unfolding validate_production secret_errors
  validate_production_nil c h = ground arith

  config_errors_nil :
      (c : Config P)
      → (c.mode == mode_production) ≡ true
      → IsReady c
      → IsHardened c
      → config_errors c ≡ []
  unfolding config_errors mode_errors active_epoch_errors
  config_errors_nil c production r h = ground (
    arith,
    normalise_production c production r,
    listing_errors_nil c r,
    validate_production_nil c h,
    epoch_nonempty c.active_epoch r.active,
    r.mode,
    r.sealed,
    r.active,
  )

  -- Every production configuration with those properties is accepted, and left as it is.
  pub validate_complete :
      (c : Config P)
      → (c.mode == mode_production) ≡ true
      → IsReady c
      → IsHardened c
      → validate c ≡ (accepted, c)
  unfolding validate verdict
  validate_complete c production r h =
      rw (config_errors_nil c production r h) (ground (arith, normalise_production c production r))
