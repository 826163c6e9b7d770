-- ===== src/Service/Credentials/Consume/Acceptance.antt =====
-- Valid credentials are accepted (internal/service/credentials.go).
use blindvault.Base.{◌≡◌, ℕ, none, some, [], true, Text, arith}
use blindvault.Apperr.{ok}
use blindvault.Context.{Context, check_context}
use blindvault.Crypto.Blst.{Blst, Platform}
use blindvault.Crypto.Derive.{derive_signing_key}
use blindvault.Crypto.Engine.RoundTrip.{deserialize_g1-compress1}
use blindvault.Crypto.Engine.Verification.{verify_point-mult1}
use blindvault.Crypto.Laws.{IsEncoding, IsPairing}
use blindvault.Crypto.Nullifier.{compute_nullifier}
use blindvault.Service.Config.Seed.{master_seed}
use blindvault.Service.Credentials.{Service, accepted}
use blindvault.Service.Credentials.Consume.{
  Redemption, read_points, verify_credential, admit, settle, spend, redeem, consume,
}
use blindvault.Service.Credentials.Points.{hex_g1, IsBytes, decode-hex_g1}
use blindvault.Storage.{NullifierStore, RevocationStore}

-- The request that redeems the signature of a witness under a key.
abbrev pub credential : (B : Blst) → B.G1 → B.Scalar → Text → Text → Redemption
credential B witness sk class epoch = record {
  signature = hex_g1 B (B.mult1 witness sk);
  witness = hex_g1 B witness;
  class = class;
  epoch = epoch;
}

module _ (P : Platform) (B : Blst) (E : IsEncoding B) (W : IsBytes B) (Q : IsPairing B) where
  pub read_points-hex_g1 :
      (sig witness : B.G1)
      → B.in_g1 sig ≡ true
      → B.in_g1 witness ≡ true
      → read_points P B (hex_g1 B sig) (hex_g1 B witness) ≡ ok (sig, witness)
  unfolding read_points
  read_points-hex_g1 sig witness hs hw = ground (
    arith,
    decode-hex_g1 B W sig,
    decode-hex_g1 B W witness,
    deserialize_g1-compress1 B E sig hs,
    deserialize_g1-compress1 B E witness hw,
  )

  verify_credential_signed :
      (ctx : Context) (witness : B.G1) (sk : B.Scalar) (class epoch : Text) (enclave : P.Enclave)
      → check_context ctx 0 ≡ none
      → derive_signing_key P B (some enclave) epoch class ≡ ok sk
      → verify_credential P B ctx (B.mult1 witness sk) witness class epoch (ok enclave) ≡ ok tt
  unfolding verify_credential
  verify_credential_signed ctx witness sk class epoch enclave live key =
      ground (arith, verify_point-mult1 B Q witness sk)

  module _ {N : NullifierStore} {V : RevocationStore} where
    -- A credential for any witness of the subgroup, signed with the key of its epoch and class, is
    -- accepted if its epoch is supported, its class not revoked, its nullifier new, and the request
    -- not cancelled.
    pub consume_credential :
        (ctx : Context) (now : ℕ) (witness : B.G1) (sk : B.Scalar) (class epoch : Text)
        (enclave : P.Enclave) (s : Service P N V)
        → admit P B now class epoch s ≡ ok none
        → (master_seed P s.config).0 ≡ ok enclave
        → derive_signing_key P B (some enclave) epoch class ≡ ok sk
        → check_context ctx 0 ≡ none
        → B.in_g1 witness ≡ true
        → (N.check_and_store
            (record { done = check_context ctx 1; now = now })
            (compute_nullifier P B epoch class (B.mult1 witness sk))
            s.store).0
          ≡ ok true
        → (consume P B ctx now (credential B witness sk class epoch) s).0
          ≡ ok (record { status = accepted; error = [] })
    unfolding consume
    consume_credential ctx now witness sk class epoch enclave s admitted seed key live sub new =
        ground (
          arith,
          read_points-hex_g1 (B.mult1 witness sk) witness (E.in_g1-mult1 witness sk sub) sub,
          verify_credential_signed ctx witness sk class epoch enclave live key,
        )

    -- Such a redemption leaves the store as the test-and-set of the nullifier leaves it.
    pub consume_credential-store :
        (ctx : Context) (now : ℕ) (witness : B.G1) (sk : B.Scalar) (class epoch : Text)
        (enclave : P.Enclave) (s : Service P N V)
        → admit P B now class epoch s ≡ ok none
        → (master_seed P s.config).0 ≡ ok enclave
        → derive_signing_key P B (some enclave) epoch class ≡ ok sk
        → check_context ctx 0 ≡ none
        → B.in_g1 witness ≡ true
        → (consume P B ctx now (credential B witness sk class epoch) s).1.store
          ≡ (N.check_and_store
              (record { done = check_context ctx 1; now = now })
              (compute_nullifier P B epoch class (B.mult1 witness sk))
              s.store).1
    unfolding consume redeem spend settle
    consume_credential-store ctx now witness sk class epoch enclave s admitted seed key live sub =
        ground (
          arith,
          read_points-hex_g1 (B.mult1 witness sk) witness (E.in_g1-mult1 witness sk sub) sub,
          verify_credential_signed ctx witness sk class epoch enclave live key,
        )
