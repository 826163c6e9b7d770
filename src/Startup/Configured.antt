-- ===== src/Startup/Configured.antt =====
-- What holds of a configuration that the server process is built from (cmd/server/main.go).
use blindvault.Base.{◌≡◌, refl, sym, ◌∙◌, ap, Bool, true, Option, none, some, Text, ◌==◌, arith}
use blindvault.Apperr.{GoError}
use blindvault.Crypto.Blst.{Platform}
use blindvault.Service.Config.{Config}
use blindvault.Service.Config.Overrides.{apply_env_overrides}
use blindvault.Service.Config.Seed.{load_master_seed, IsSealed, load_master_seed-IsSealed}
use blindvault.Service.Config.Validate.{accepted, validate}
use blindvault.Service.Config.Validate.Policy.{
  IsReady, IsHardened, normalise_mode, normalise_seed, validate-IsReady, validate-IsHardened,
}
use blindvault.Service.Mode.{mode_production}
use blindvault.Startup.Configure.{
  Env, Host, Stage, goes_on, stops, ◌>>=◌, environment, yaml_config, seeded, validated, configure,
}

pub goes_of_bind {ℓ κ} :
    {A : Type ℓ} {B : Type κ} (call : Stage A) (next : A → Stage B) {result : B}
    → (call >>= next) ≡ goes_on result
    → (value : A) × (call ≡ goes_on value) × (next value ≡ goes_on result)
goes_of_bind (goes_on value) next h = (value, refl, h)
goes_of_bind (stops e) next h = cc

module _ (P : Platform) (H : Host P) where
  -- The configuration that Validate was given.
  record IsStaged (c : Config P) : Type 0 where
    given : Config P
    sealed : IsSealed P given
    verdict : (validate given).0 ≡ accepted
    result : c ≡ (validate given).1

  seeded-IsSealed : (env : Env) (c c' : Config P) → seeded P H env c ≡ goes_on c' → IsSealed P c'
  unfolding seeded
  seeded-IsSealed env c c' h = cases (load_master_seed P env H.read_file c) refl
    where
      cases :
          (r : Option GoError × Config P) → load_master_seed P env H.read_file c ≡ r → IsSealed P c'
      cases (some e, d) p = absurd (ground arith)
      cases (none, d) p =
          let same : d ≡ c' = ground arith in
          rw (sym same, ap (λ r. r.1) (sym p))
            (load_master_seed-IsSealed P env H.read_file c (ap (λ r. r.0) p))

  validated_inv :
      (d c : Config P)
      → validated P H d ≡ goes_on c
      → ((validate d).0 ≡ accepted) × (c ≡ (validate d).1)
  unfolding validated
  validated_inv d c h = ground arith

  configure-IsStaged :
      (config_path env_file : Text) (override : Bool) (env : Env) (c : Config P)
      → configure P H config_path env_file override env ≡ goes_on c
      → IsStaged c
  unfolding configure
  configure-IsStaged config_path env_file override env c h =
      let (env', loaded, h1) = goes_of_bind (environment P H env_file override env) _ h in
      let (d, read, h2) = goes_of_bind (yaml_config P H config_path) _ h1 in
      let (given, seed, h3) = goes_of_bind (seeded P H env' (apply_env_overrides env' d)) _ h2 in
      let (verdict, result) = validated_inv given c h3 in
      record {
        given = given;
        sealed = seeded-IsSealed env' (apply_env_overrides env' d) given seed;
        verdict = verdict;
        result = result;
      }

  -- A server process gets as far as its server only with a configuration that has a known mode, a
  -- supported and well-formed active epoch and distinct supported epochs, whose master seed is 32
  -- bytes sealed in an enclave, with no hex text of it left, wherever the seed came from.
  pub configure-IsReady :
      (config_path env_file : Text) (override : Bool) (env : Env) (c : Config P)
      → configure P H config_path env_file override env ≡ goes_on c
      → IsReady c × IsSealed P c
  configure-IsReady config_path env_file override env c h =
      let s = configure-IsStaged config_path env_file override env c h in
      let (enclave, wiped) = normalise_seed s.given in
      rw s.result (
        validate-IsReady s.given s.verdict,
        record {
          raw = s.sealed.raw;
          enclave = enclave ∙ s.sealed.enclave;
          size = s.sealed.size;
          wiped = wiped ∙ s.sealed.wiped;
        },
      )

  -- In production that configuration is hardened too.
  pub configure-IsHardened :
      (config_path env_file : Text) (override : Bool) (env : Env) (c : Config P)
      → configure P H config_path env_file override env ≡ goes_on c
      → (c.mode == mode_production) ≡ true
      → IsHardened c
  configure-IsHardened config_path env_file override env c h production =
      let s = configure-IsStaged config_path env_file override env c h in
      rw s.result (
        validate-IsHardened s.given
          (ap (λ m. m == mode_production)
              (sym (normalise_mode s.given) ∙ ap (λ d. d.mode) (sym s.result))
            ∙ production)
          s.verdict)
