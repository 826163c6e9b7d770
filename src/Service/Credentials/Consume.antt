-- ===== src/Service/Credentials/Consume.antt =====
-- CredentialService.Consume (internal/service/credentials.go).
pub mod Outcome
pub mod OneTime
pub mod Sequence
pub mod Acceptance
pub mod Replay
use blindvault.Base.{
  ℕ, Bool, true, false, not, Option, none, some, ◌++◌, Text, bytes, is_empty, if◌then◌else◌,
}
use blindvault.Apperr.{
  GoError, invalid_argument, unavailable, internal, app, app_wrap, message, Result, ok, err,
  map_err, check, ◌>>=◌,
}
use blindvault.Context.{Context, Call, check_context}
use blindvault.Crypto.Blst.{Blst, Platform}
use blindvault.Crypto.Derive.{derive_signing_key}
use blindvault.Crypto.Engine.{verify_point}
use blindvault.Crypto.Nullifier.{compute_nullifier}
use blindvault.Crypto.Scalar.{deserialize_g1, pub_key}
use blindvault.Service.Config.{Config, is_epoch_supported}
use blindvault.Service.Config.Seed.{master_seed}
use blindvault.Service.Credentials.{
  Service, ConsumeResult, accepted, duplicate, revoked, record_nullifier_store,
}
use blindvault.Storage.{NullifierStore, RevocationStore, RevocationEntry}
use blindvault.Validation.Hex.{decode_string}

-- A request as the handler passes it on.
pub record Redemption : Type 0 where
  pub signature : Text
  pub witness : Text
  pub class : Text
  pub epoch : Text

-- the message of a revoked credential
unfoldable pub revoked_message : Option RevocationEntry → Text
revoked_message none = bytes "credential class revoked"
revoked_message (some entry) =
    if is_empty entry.reason
    then bytes "credential class revoked"
    else bytes "credential class revoked" ++ (bytes ": " ++ entry.reason)

module _ (P : Platform) (B : Blst) where
  -- step 3: the signature and the witness
  unfoldable pub read_points : Text → Text → Result (B.G1 × B.G1)
  read_points sig_hex witness_hex = do
    sig_bytes ←
        map_err (λ e. app_wrap invalid_argument (bytes "invalid signature hex") e)
          (decode_string sig_hex)
    witness_bytes ←
        map_err (λ e. app_wrap invalid_argument (bytes "invalid witness hex") e)
          (decode_string witness_hex)
    sig ←
        map_err (λ e. app_wrap invalid_argument (bytes "invalid signature point") e)
          (deserialize_g1 B sig_bytes)
    witness ←
        map_err (λ e. app_wrap invalid_argument (bytes "invalid witness point") e)
          (deserialize_g1 B witness_bytes)
    ok (sig, witness)

  -- steps 4 and 5 with what MasterSeed returned
  unfoldable pub verify_credential :
      Context → B.G1 → B.G1 → Text → Text → Result P.Enclave → Result (Unit {0})
  verify_credential ctx sig witness class epoch seed = do
    enclave ← map_err (λ e. app_wrap internal (bytes "master seed error") e) seed
    sk ←
        map_err (λ e. app_wrap internal (bytes "key derivation failed") e)
          (derive_signing_key P B (some enclave) epoch class)
    _ ←
        check (check_context ctx 0)
          (λ e. app_wrap unavailable (bytes "request cancelled before verification") e)
    if verify_point B sig witness (pub_key B sk)
        then ok tt
        else err (app invalid_argument (bytes "invalid signature"))

  module _ {N : NullifierStore} {V : RevocationStore} where
    -- step 2: the epoch and the revocations; `none` lets the request pass
    unfoldable pub admit : ℕ → Text → Text → Service P N V → Result (Option ConsumeResult)
    admit now class epoch s =
        if is_empty class
        then err (app invalid_argument (bytes "credential_class is required"))
        else if is_empty epoch
        then err (app invalid_argument (bytes "key_epoch is required"))
        else if not (is_epoch_supported s.config epoch)
        then err (app invalid_argument (bytes "unsupported key_epoch"))
        else elim s.revocation_store [
          | none ↦ ok none
          | some v ↦ do
            (found, entry) ←
                map_err (λ e. app_wrap unavailable (bytes "revocation check failed") e)
                  (V.is_revoked now class epoch v)
            if found
                then ok (some (record { status = revoked; error = revoked_message entry }))
                else ok none
        ]

    -- what step 6 makes of the answer of the nullifier store
    unfoldable pub settle : Result Bool → Service P N V → Result ConsumeResult × Service P N V
    unfolding record_nullifier_store
    settle (err e) s = (
      err (app_wrap unavailable (bytes "nullifier store error") e),
      record_nullifier_store (bytes "check: failure") (message e) s,
    )
    settle (ok false) s = (
      ok (record { status = duplicate; error = bytes "credential already redeemed" }),
      record_nullifier_store (bytes "check") (bytes "duplicate") s,
    )
    settle (ok true) s = (
      ok (record { status = accepted; error = bytes "" }),
      record_nullifier_store (bytes "check") (bytes "unique") s,
    )

    -- step 6: the nullifier
    unfoldable pub spend :
        Context → ℕ → B.G1 → Text → Text → Service P N V → Result ConsumeResult × Service P N V
    unfolding settle
    spend ctx now sig class epoch s =
        let (answer, store') =
          N.check_and_store (record { done = check_context ctx 1; now = now })
            (compute_nullifier P B epoch class sig) s.store in
        settle answer (record s { store = store' })

    -- steps 4 to 6
    unfoldable pub redeem :
        Context
        → ℕ
        → B.G1
        → B.G1
        → Text
        → Text
        → Service P N V
        → Result ConsumeResult × Service P N V
    unfolding spend
    redeem ctx now sig witness class epoch s =
        let (seed, config') = master_seed P s.config in
        let s' : Service P N V = record s { config = config' } in
        elim (verify_credential ctx sig witness class epoch seed) [
          | err e ↦ (err e, s')
          | ok _ ↦ spend ctx now sig class epoch s'
        ]

    -- CredentialService.Consume
    unfoldable pub consume :
        Context → ℕ → Redemption → Service P N V → Result ConsumeResult × Service P N V
    unfolding redeem
    consume ctx now r s = elim (admit now r.class r.epoch s) [
      | err e ↦ (err e, s)
      | ok (some result) ↦ (ok result, s)
      | ok none ↦ elim (read_points r.signature r.witness) [
        | err e ↦ (err e, s)
        | ok (sig, witness) ↦ redeem ctx now sig witness r.class r.epoch s
      ]
    ]
