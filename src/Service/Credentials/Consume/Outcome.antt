-- ===== src/Service/Credentials/Consume/Outcome.antt =====
-- Consume, against its contract (internal/service/credentials.go): what an accepted request has
-- passed, and what each outcome does to the set of nullifiers.
use blindvault.Base.{◌≡◌, refl, ◌≢◌, ℕ, Bool, true, false, Option, none, some, Text, arith}
use blindvault.Apperr.{Result, ok, err, map_err, check, ok_of_bind, ok_of_map_err}
use blindvault.Context.{Context, check_context}
use blindvault.Crypto.Blst.{Blst, Platform}
use blindvault.Crypto.Derive.{derive_signing_key}
use blindvault.Crypto.Engine.{verify_point}
use blindvault.Crypto.Nullifier.{compute_nullifier}
use blindvault.Crypto.Scalar.{pub_key}
use blindvault.Service.Config.{is_epoch_supported}
use blindvault.Service.Config.Seed.{master_seed}
use blindvault.Service.Credentials.{Service, ConsumeStatus, ConsumeResult, accepted, revoked}
use blindvault.Service.Credentials.Consume.{
  Redemption, read_points, verify_credential, admit, redeem, consume,
}
use blindvault.Storage.{NullifierStore, RevocationStore, RevocationEntry}

abbrev is_accepted : ConsumeStatus → Bool
is_accepted accepted = true
is_accepted _ = false

abbrev pub was_accepted : Result ConsumeResult → Bool
was_accepted (err e) = false
was_accepted (ok result) = is_accepted result.status

module _ (P : Platform) (B : Blst) where
  -- The nullifier of a request whose points can be read.
  unfoldable pub nullifier_of : Redemption → Option Text
  nullifier_of r = elim (read_points P B r.signature r.witness) [
    | err e ↦ none
    | ok (sig, witness) ↦ some (compute_nullifier P B r.epoch r.class sig)
  ]

  module _ {N : NullifierStore} {V : RevocationStore} (now : ℕ) (r : Redemption)
      (s : Service P N V) where
    -- What an accepted request has passed.
    pub record IsVerified : Type 0 where
      pub admitted : admit P B now r.class r.epoch s ≡ ok none
      pub sig : B.G1
      pub witness : B.G1
      pub points : read_points P B r.signature r.witness ≡ ok (sig, witness)
      pub enclave : P.Enclave
      pub seed : (master_seed P s.config).0 ≡ ok enclave
      pub sk : B.Scalar
      pub key : derive_signing_key P B (some enclave) r.epoch r.class ≡ ok sk
      pub valid : verify_point B sig witness (pub_key B sk) ≡ true

  -- What VerifyPoint and the key derivation found, when step 5 lets a credential pass.
  record Passes (ctx : Context) (sig witness : B.G1) (class epoch : Text) (seed : Result P.Enclave)
      : Type 0 where
    enclave : P.Enclave
    opened : seed ≡ ok enclave
    sk : B.Scalar
    key : derive_signing_key P B (some enclave) epoch class ≡ ok sk
    valid : verify_point B sig witness (pub_key B sk) ≡ true

  Passes-of_verified :
      (ctx : Context) (sig witness : B.G1) (class epoch : Text) (seed : Result P.Enclave) {u : Unit}
      → verify_credential P B ctx sig witness class epoch seed ≡ ok u
      → Passes ctx sig witness class epoch seed
  unfolding verify_credential
  Passes-of_verified ctx sig witness class epoch seed h =
      let (enclave, opened, h1) = ok_of_bind (map_err _ seed) _ h in
      let (sk, key, h2) =
        ok_of_bind (map_err _ (derive_signing_key P B (some enclave) epoch class)) _ h1 in
      let (_, live, h3) = ok_of_bind (check (check_context ctx 0) _) _ h2 in
      record {
        enclave = enclave;
        opened = ok_of_map_err _ seed opened;
        sk = sk;
        key = ok_of_map_err _ (derive_signing_key P B (some enclave) epoch class) key;
        valid = ground (arith, h3);
      }

  module _ {N : NullifierStore} {V : RevocationStore} where
    pub admit-revoked :
        (now : ℕ) (class epoch : Text) (s : Service P N V) (result : ConsumeResult)
        → admit P B now class epoch s ≡ ok (some result)
        → result.status ≡ revoked
    unfolding admit
    admit-revoked now class epoch s result h = ground arith

    -- The steps of a request that is accepted, one after the other.
    redeem_verified :
        (ctx : Context) (now : ℕ) (r : Redemption) (s : Service P N V) (sig witness : B.G1)
        → admit P B now r.class r.epoch s ≡ ok none
        → read_points P B r.signature r.witness ≡ ok (sig, witness)
        → was_accepted (redeem P B ctx now sig witness r.class r.epoch s).0 ≡ true
        → IsVerified now r s
    unfolding redeem
    redeem_verified ctx now r s sig witness passed points h =
        cases (verify_credential P B ctx sig witness r.class r.epoch (master_seed P s.config).0)
          refl
      where
        cases :
            (v : Result Unit)
            → verify_credential P B ctx sig witness r.class r.epoch (master_seed P s.config).0 ≡ v
            → IsVerified now r s
        cases (err e) p = absurd (ground arith)
        cases (ok u) p =
            let q =
              Passes-of_verified ctx sig witness r.class r.epoch (master_seed P s.config).0 p in
            record {
              admitted = passed;
              sig = sig;
              witness = witness;
              points = points;
              enclave = q.enclave;
              seed = q.opened;
              sk = q.sk;
              key = q.key;
              valid = q.valid;
            }

    -- A request is accepted only if its epoch is supported and its class is not revoked, and its
    -- signature verifies for its witness under the key of its epoch and class.
    pub consume-IsVerified :
        (ctx : Context) (now : ℕ) (r : Redemption) (s : Service P N V)
        → was_accepted (consume P B ctx now r s).0 ≡ true
        → IsVerified now r s
    unfolding consume
    consume-IsVerified ctx now r s h = admit_cases (admit P B now r.class r.epoch s) refl
      where
        points_cases :
            (p : Result (B.G1 × B.G1))
            → admit P B now r.class r.epoch s ≡ ok none
            → read_points P B r.signature r.witness ≡ p
            → IsVerified now r s
        points_cases (err e) a q = absurd (ground arith)
        points_cases (ok (sig, witness)) a q =
            redeem_verified ctx now r s sig witness a q (ground arith)

        admit_cases :
            (a : Result (Option ConsumeResult))
            → admit P B now r.class r.epoch s ≡ a
            → IsVerified now r s
        admit_cases (err e) p = absurd (ground arith)
        admit_cases (ok (some result)) p =
            absurd (ground (arith, admit-revoked now r.class r.epoch s result p))
        admit_cases (ok none) p = points_cases (read_points P B r.signature r.witness) p refl

    -- A request that was admitted had a supported epoch and a class that is not revoked.
    pub record IsAdmitted (now : ℕ) (class epoch : Text) (s : Service P N V) : Type 0 where
      pub supported : is_epoch_supported s.config epoch ≡ true
      pub not_revoked :
          (v : V.State)
          → s.revocation_store ≡ some v
          → (e : Option RevocationEntry) → V.is_revoked now class epoch v ≢ ok (true, e)

    admit-IsAdmitted :
        (now : ℕ) (class epoch : Text) (s : Service P N V)
        → admit P B now class epoch s ≡ ok none
        → IsAdmitted now class epoch s
    unfolding admit
    admit-IsAdmitted now class epoch s h = record {
      supported = ground arith;
      not_revoked = λ v held e answer. ground arith;
    }

    -- No request for a revoked class, or for an epoch that is not supported, is accepted.
    pub consume-IsAdmitted :
        (ctx : Context) (now : ℕ) (r : Redemption) (s : Service P N V)
        → was_accepted (consume P B ctx now r s).0 ≡ true
        → IsAdmitted now r.class r.epoch s
    consume-IsAdmitted ctx now r s h =
        admit-IsAdmitted now r.class r.epoch s (consume-IsVerified ctx now r s h).admitted
