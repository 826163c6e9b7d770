-- ===== src/Crypto.antt =====
-- pkg/crypto: scalars, points, blind signatures, the DLEQ proof, key derivation and nullifiers.
pub mod Blst
pub mod Scalar
pub mod Laws
pub mod Engine
pub mod Dleq
pub mod Derive
pub mod Nullifier
pub mod Separation
