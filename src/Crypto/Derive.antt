-- ===== src/Crypto/Derive.antt =====
-- pkg/crypto/derive.go: the signing key of an epoch and a class.
use blindvault.Base.{Option, none, some, ◌++◌, [], ◌∷◌, Text, bytes, is_empty, if◌then◌else◌}
use blindvault.Apperr.{Result, ok, err, plain, ◌>>=◌}
use blindvault.Crypto.Blst.{Blst, Platform}

abbrev pub protocol_tag : Text
protocol_tag = bytes "BCIS"

abbrev pub purpose : Text
purpose = bytes "SIGNING_KEY"

abbrev pub salt : Text
salt = bytes "BCIS-V1-SALT"

-- "\x00"
abbrev pub separator : Text
separator = 0 ∷ []

-- the `info` string of DeriveSigningKey
unfoldable pub key_info : Text → Text → Text
key_info epoch class =
    protocol_tag ++ (separator ++ (purpose ++ (separator ++ (epoch ++ (separator ++ class)))))

abbrev to_scalar : {A : Type 0} → Option A → Result A
to_scalar none = err (plain (bytes "hash-to-scalar failed"))
to_scalar (some a) = ok a

module _ (P : Platform) (B : Blst) where
  derive_from_seed : Text → Text → Text → Result B.Scalar
  derive_from_seed master_seed epoch class =
      if is_empty master_seed
      then err (plain (bytes "master seed cannot be empty"))
      else if is_empty epoch
      then err (plain (bytes "epoch cannot be empty"))
      else if is_empty class
      then err (plain (bytes "credential class cannot be empty"))
      else do
        key ← P.hkdf_key master_seed salt (key_info epoch class) 64
        to_scalar (B.hash_to key (bytes "BCIS-V1-SCALAR"))

  -- DeriveSigningKey; a nil enclave is `none`
  unfoldable pub derive_signing_key : Option P.Enclave → Text → Text → Result B.Scalar
  unfolding derive_from_seed
  derive_signing_key none epoch class = err (plain (bytes "master seed cannot be empty"))
  derive_signing_key (some enclave) epoch class = do
    master_seed ← P.open_enclave enclave
    derive_from_seed master_seed epoch class
