-- ===== src/Service/Config/Seed.antt =====
-- Config.LoadMasterSeed and Config.MasterSeed (internal/service/config.go).
use blindvault.Base.{
  ◌≡◌, refl, Option, none, some, [], Text, bytes, is_empty, length, nat_eq, trim_space,
  if◌then◌else◌, if_both, arith,
}
use blindvault.Apperr.{GoError, plain, wrapped, Result, ok, err}
use blindvault.Crypto.Blst.{Platform}
use blindvault.Service.Config.{Config, SecretSource, inline, env, file}
use blindvault.Validation.Hex.{decode_string}

module _ (P : Platform) where
  -- the decoding of the hex text, which both functions share in form; the messages differ
  seed_bytes : (GoError → GoError) → GoError → Text → Result Text
  seed_bytes not_hex wrong_length seed_hex = elim (decode_string seed_hex) [
    | err e ↦ err (not_hex e)
    | ok raw ↦ if nat_eq (length raw) 32 then ok raw else err wrong_length
  ]

  -- the end of LoadMasterSeed, once `seed_hex` and its source are known. The message about the
  -- length also gives the length that was found.
  seal : Text → SecretSource → Config P → Option GoError × Config P
  unfolding seed_bytes
  seal seed_hex source c =
      let c' = record c { master_seed_source = source } in
      elim (seed_bytes (wrapped (bytes "master seed is not valid hex"))
        (plain (bytes "master seed must decode to 32 bytes")) seed_hex) [
          | err e ↦ (some e, c')
          | ok raw ↦ (
            none,
            record c' { master_seed_enclave = some (P.new_enclave raw); master_seed_hex = [] },
          )
        ]

  -- the case of BLINDVAULT_SEED_FILE, after os.ReadFile
  load_file : Result Text → Config P → Option GoError × Config P
  unfolding seal
  load_file (err e) c = (some (wrapped (bytes "read seed file") e), c)
  load_file (ok text) c = seal (trim_space text) file c

  -- the cases of the YAML text and of no source at all
  load_inline : Config P → Option GoError × Config P
  unfolding seal
  load_inline c =
      if is_empty c.master_seed_hex
      then (some (plain (bytes "no master seed source configured")), c)
      else seal c.master_seed_hex inline c

  -- Config.LoadMasterSeed; `getenv` is os.Getenv and `read_file` is os.ReadFile
  unfoldable pub load_master_seed :
      (Text → Text) → (Text → Result Text) → Config P → Option GoError × Config P
  unfolding load_file load_inline seal
  load_master_seed getenv read_file c =
      if is_empty (getenv (bytes "BLINDVAULT_MASTER_SEED_HEX"))
      then (if is_empty (getenv (bytes "BLINDVAULT_SEED_FILE"))
          then load_inline c
          else load_file (read_file (getenv (bytes "BLINDVAULT_SEED_FILE"))) c)
      else seal (getenv (bytes "BLINDVAULT_MASTER_SEED_HEX")) env c

  -- Config.MasterSeed; it keeps the enclave that it makes
  unfoldable pub master_seed : Config P → Result P.Enclave × Config P
  unfolding seed_bytes
  master_seed c = elim c.master_seed_enclave [
    | some enclave ↦ (ok enclave, c)
    | none ↦
        if is_empty c.master_seed_hex
        then (err (plain (bytes "Master seed not loaded")), c)
        else elim (seed_bytes (wrapped (bytes "Unable to deserialize masterseed from Config"))
            (plain (bytes "master seed must be 32 bytes (64 hex characters)")) c.master_seed_hex) [
              | err e ↦ (err e, c)
              | ok seed ↦ (
                ok (P.new_enclave seed),
                record c { master_seed_enclave = some (P.new_enclave seed) },
              )
            ]
  ]

  -- What holds of a configuration whose seed was loaded: it is sealed, and its text is gone.
  pub record IsSealed (c : Config P) : Type 0 where
    pub raw : Text
    pub enclave : c.master_seed_enclave ≡ some (P.new_enclave raw)
    pub size : length raw ≡ 32
    pub wiped : c.master_seed_hex ≡ []

  seal-IsSealed :
      (seed_hex : Text) (source : SecretSource) (c : Config P)
      → (seal seed_hex source c).0 ≡ none
      → IsSealed (seal seed_hex source c).1
  unfolding seal
  seal-IsSealed seed_hex source c h = cases (decode_string seed_hex) refl
    where
      cases : (r : Result Text) → decode_string seed_hex ≡ r → IsSealed (seal seed_hex source c).1
      cases (err e) p = absurd (ground arith)
      cases (ok raw) p = record {
        raw = raw;
        enclave = ground arith;
        size = ground arith;
        wiped = ground arith;
      }

  -- Loading that reports no error has sealed a seed.
  abbrev Seals : Option GoError × Config P → Type 0
  Seals r = r.0 ≡ none → IsSealed r.1

  load_file-Seals : (r : Result Text) (c : Config P) → Seals (load_file r c)
  unfolding load_file
  load_file-Seals (err e) c h = cc
  load_file-Seals (ok text) c h = seal-IsSealed (trim_space text) file c h

  load_inline-Seals : (c : Config P) → Seals (load_inline c)
  unfolding load_inline
  load_inline-Seals c =
      if_both Seals (is_empty c.master_seed_hex) _ _ (λ h. cc)
        (seal-IsSealed c.master_seed_hex inline c)

  -- When loading reports no error, 32 bytes are sealed in an enclave and the hex text is wiped.
  pub load_master_seed-IsSealed :
      (getenv : Text → Text) (read_file : Text → Result Text) (c : Config P)
      → (load_master_seed getenv read_file c).0 ≡ none
      → IsSealed (load_master_seed getenv read_file c).1
  unfolding load_master_seed
  load_master_seed-IsSealed getenv read_file c =
      if_both Seals (is_empty (getenv (bytes "BLINDVAULT_MASTER_SEED_HEX"))) _ _
        (if_both Seals (is_empty (getenv (bytes "BLINDVAULT_SEED_FILE"))) _ _ (load_inline-Seals c)
          (load_file-Seals (read_file (getenv (bytes "BLINDVAULT_SEED_FILE"))) c))
        (seal-IsSealed (getenv (bytes "BLINDVAULT_MASTER_SEED_HEX")) env c)

  -- A sealed seed is what MasterSeed returns, and asking for it changes nothing.
  pub master_seed_of_sealed :
      (c : Config P) (s : IsSealed c) → master_seed c ≡ (ok (P.new_enclave s.raw), c)
  unfolding master_seed
  master_seed_of_sealed c s = ground (arith, s.enclave)

  -- Asking again gives the same answer.
  pub master_seed_twice : (c : Config P) → (master_seed (master_seed c).1).0 ≡ (master_seed c).0
  unfolding master_seed
  master_seed_twice c = ground arith
