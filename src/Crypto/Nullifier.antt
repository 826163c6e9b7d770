-- ===== src/Crypto/Nullifier.antt =====
-- pkg/crypto/nullifier.go: the key under which a redeemed credential is remembered.
use blindvault.Base.{◌++◌, [], ◌∷◌, Text, bytes}
use blindvault.Crypto.Blst.{Blst, Platform}

-- what is written to the hash, in the order of the writes
unfoldable pub nullifier_input : Text → Text → Text → Text
nullifier_input epoch class sig_bytes =
    bytes "BCIS-V1" ++ (0 ∷ (epoch ++ (0 ∷ (class ++ (0 ∷ (sig_bytes ++ (1 ∷ [])))))))

module _ (P : Platform) (B : Blst) where
  -- ComputeNullifier
  unfoldable pub compute_nullifier : Text → Text → B.G1 → Text
  compute_nullifier epoch class sig = P.sha256 (nullifier_input epoch class (B.serialize1 sig))
