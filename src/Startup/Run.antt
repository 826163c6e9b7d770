-- ===== src/Startup/Run.antt =====
-- The server process (cmd/server/main.go): run and main.
use blindvault.Base.{
  ℕ, ◌≡◌, ap, sym, ◌∙◌, Bool, true, Option, none, some, List, [], ◌∷◌, Text, bytes, ◌==◌, arith,
  if_false,
}
use blindvault.Apperr.{GoError, wrapped, Result, ok, err, ok_of_bind}
use blindvault.Api.RateLimiter.{Rate}
use blindvault.Api.Server.{nullifier_expiration}
use blindvault.Api.Server.Build.{
  redis_stores, Built, open_stores, revocation_client, build, close_stores, shutdown,
}
use blindvault.Crypto.Blst.{Platform}
use blindvault.Service.Config.{Config}
use blindvault.Service.Config.Seed.{IsSealed}
use blindvault.Service.Config.Validate.{is_none}
use blindvault.Service.Config.Validate.Policy.{IsReady, IsHardened}
use blindvault.Service.Mode.{mode_production}
use blindvault.Startup.Configure.{
  Env, Host, RunError, failed, Stage, goes_on, stops, ◌>>=◌, stage, configure,
}
use blindvault.Startup.Configured.{goes_of_bind, configure-IsReady, configure-IsHardened}
use blindvault.Storage.Redis.Connect.{
  Driver, IsDriver, RedisNullifierStore, RedisRevocationStore, new_redis_client,
  new_redis_nullifier_store_with_client, new_redis_revocation_store,
}

-- The flags of the process.
pub record Flags : Type 0 where
  pub config_path : Text
  pub env_file : Text
  pub env_override : Bool

-- What the select of run waits for: the signal, or the error of ListenAndServe.
pub data Ending : Type 0 where
  signalled : Ending
  serve_failed : GoError → Ending

-- What a process leaves: the error of run, the errors that Shutdown logs, and the connections.
pub record Exit (D : Driver) : Type 0 where
  pub error : Option RunError
  pub logged : List GoError
  pub net : D.Net

abbrev returned : Option GoError → Option RunError
returned none = none
returned (some e) = some (failed e)

module _ (P : Platform) (H : Host P) (D : Driver) (R : Rate) where
  -- run up to the server that it starts
  unfoldable pub prepare : Flags → Env → D.Net → Stage (Built D P R)
  prepare f env net = do
    c ← configure P H f.config_path f.env_file f.env_override env
    stage (bytes "build server") (build D P R c net)

  -- the end of run; `http` is what Shutdown of the HTTP server returns
  unfoldable pub finish : Ending → Option GoError → Built D P R → D.Net → Exit D
  finish (serve_failed e) http s net = record {
    error = some (failed (wrapped (bytes "server error") e));
    logged = [];
    net = net;
  }
  finish signalled http s net =
      let ((logged, result), net') = shutdown D P R http s net in
      record { error = returned result; logged = logged; net = net' }

  -- run
  unfoldable pub run : Flags → Env → Ending → Option GoError → D.Net → Exit D
  unfolding prepare finish
  run f env ending http net = elim (prepare f env net) [
    | stops e ↦ record { error = some e; logged = []; net = net }
    | goes_on s ↦ finish ending http s net
  ]

  -- the exit status of main
  unfoldable pub status : Exit D → ℕ
  status x = elim x.error [ none ↦ 0 | some e ↦ 1 ]

  -- A server over Redis: the nullifiers on the main client with the configured expiration, the
  -- revocations on it or on a client of their own, and no demo store.
  pub record IsConnected (s : Built D P R) (net : D.Net) : Type 0 where
    pub main : D.Client
    pub revocations : D.Client
    pub dialled :
        new_redis_client D s.config.redis_addr s.config.redis_password s.config.redis_db net
        ≡ ok main
    pub chosen : revocation_client D s.config main net ≡ ok revocations
    pub stores :
        s.stores
        ≡ redis_stores
            (record { client = main; expiration = s.config.redis_expiration })
            (record { client = revocations })
    pub no_demo : is_none s.demo_store ≡ true

  build_config :
      (c : Config P) (s : Built D P R) (net : D.Net) → build D P R c net ≡ ok s → s.config ≡ c
  unfolding build
  build_config c s net h = ground arith

  ok_of_stage :
      (prefix : Text) (r : Result (Built D P R)) (s : Built D P R)
      → stage prefix r ≡ goes_on s
      → r ≡ ok s
  ok_of_stage prefix (ok t) s h = ground arith
  ok_of_stage prefix (err e) s h = cc

  build-IsConnected :
      (c : Config P) (s : Built D P R) (net : D.Net)
      → IsHardened c
      → build D P R c net ≡ ok s
      → IsConnected s net
  unfolding build open_stores new_redis_nullifier_store_with_client new_redis_revocation_store
      nullifier_expiration
  build-IsConnected c s net hard h =
      let (stores, opened, h1) = ok_of_bind (open_stores D c net) _ h in
      let over_redis = if_false _ hard.memory opened in
      let (main, dialled, h2) =
        ok_of_bind (new_redis_client D c.redis_addr c.redis_password c.redis_db net) _ over_redis in
      let (revocations, chosen, h3) = ok_of_bind (revocation_client D c main net) _ h2 in
      let same = build_config c s net h in
      record {
        main = main;
        revocations = revocations;
        dialled = rw same dialled;
        chosen = rw same chosen;
        stores = ground arith;
        no_demo = ground (arith, hard.demo);
      }

  -- In production a server is made only over Redis stores whose connections answered, with the
  -- configured expiration of the nullifiers, without the demo endpoints, and of a configuration
  -- that is ready, hardened and sealed.
  pub prepare-IsConnected :
      (f : Flags) (env : Env) (net : D.Net) (s : Built D P R)
      → prepare f env net ≡ goes_on s
      → (s.config.mode == mode_production) ≡ true
      → IsConnected s net × IsReady s.config × IsHardened s.config × IsSealed P s.config
  unfolding prepare
  prepare-IsConnected f env net s h production =
      let (c, configured, built) =
        goes_of_bind (configure P H f.config_path f.env_file f.env_override env) _ h in
      let made = ok_of_stage _ (build D P R c net) s built in
      let same = build_config c s net made in
      let (ready, sealed) =
        configure-IsReady P H f.config_path f.env_file f.env_override env c configured in
      let hard =
        configure-IsHardened P H f.config_path f.env_file f.env_override env c configured
          (ap (λ d. d.mode == mode_production) (sym same) ∙ production) in
      (build-IsConnected c s net hard made, rw same ready, rw same hard, rw same sealed)

  -- A server whose revocations share the client of the nullifiers closes that client twice, so its
  -- Shutdown always logs an error, though the first close succeeds.
  pub shutdown_shared :
      (http : Option GoError) (s : Built D P R) (net : D.Net) (nullifiers : RedisNullifierStore D)
      (revocations : RedisRevocationStore D)
      → IsDriver D
      → s.stores ≡ redis_stores nullifiers revocations
      → revocations.client ≡ nullifiers.client
      → (D.close nullifiers.client net).0 ≡ none
      → (e : GoError) × ((shutdown D P R http s net).0 ≡ (e ∷ [], http))
  unfolding shutdown close_stores
  shutdown_shared http s net nullifiers revocations L over shared closed =
      let (e, again) = L.closed_again nullifiers.client net closed in (e, ground (arith, again))
