-- ===== src/Service/Credentials.antt =====
-- internal/service/credentials.go: issuing and redeeming credentials.
pub mod Points
pub mod Issue
pub mod Consume
use blindvault.Base.{ℕ, Option, none, some, Text, bytes}
use blindvault.Apperr.{GoError, wrapped, Result}
use blindvault.Context.{Call}
use blindvault.Crypto.Blst.{Platform}
use blindvault.Metrics.{Reporter, nullifier_store, record_event}
use blindvault.Service.Config.{Config}
use blindvault.Storage.{NullifierStore, RevocationStore}

-- IssueResult with its DLEQProofSerialized; all texts are hex
pub record IssueResult : Type 0 where
  pub blind_signature : Text
  pub public_key : Text
  pub key_epoch : Text
  pub proof_r1 : Text
  pub proof_r2 : Text
  pub proof_s : Text
  pub proof_c : Text

-- ConsumeStatus
pub data ConsumeStatus : Type 0 where
  accepted duplicate revoked : ConsumeStatus

-- ConsumeResult
pub record ConsumeResult : Type 0 where
  pub status : ConsumeStatus
  pub error : Text

module _ (P : Platform) (N : NullifierStore) (V : RevocationStore) where
  -- CredentialService, with the contents of the stores that it points to; the engine is the
  -- definitions of Crypto.Engine. The revocation store may be nil.
  pub record Service : Type 0 where
    pub config : Config P
    pub store : N.State
    pub revocation_store : Option V.State
    pub metrics : Reporter

abbrev first_error : Option GoError → Option GoError → Option GoError
first_error (some e) f = some e
first_error none f = f

module _ (V : RevocationStore) where
  -- `if s.revocationStore != nil` in Ping
  ping_revocation : Call → Option V.State → Option GoError
  ping_revocation c none = none
  ping_revocation c (some v) = elim (V.ping c v) [
    | some e ↦ some (wrapped (bytes "revocation store ping failed") e)
    | none ↦ none
  ]

  -- `if s.revocationStore != nil` in Close
  close_revocation : Option V.State → Option GoError × Option V.State
  close_revocation none = (none, none)
  close_revocation (some v) = let (e, v') = V.close v in (e, some v')

module _ {P : Platform} {N : NullifierStore} {V : RevocationStore} where
  -- CredentialService.nullifierstore
  unfoldable pub record_nullifier_store : Text → Text → Service P N V → Service P N V
  record_nullifier_store state result s = record s {
    metrics = record_event (nullifier_store state result) s.metrics;
  }

  -- CredentialService.Ping; the two looks at the context are two calls
  unfoldable pub ping : Call → Call → Service P N V → Option GoError
  unfolding ping_revocation
  ping c c' s = elim (N.ping c s.store) [
    | some e ↦ some (wrapped (bytes "nullifier store ping failed") e)
    | none ↦ ping_revocation V c' s.revocation_store
  ]

  -- CredentialService.Close: both stores are closed, and the first error is returned
  unfoldable pub close : Service P N V → Option GoError × Service P N V
  unfolding close_revocation
  close s =
      let (e, store') = N.close s.store in
      let (e', revocation_store') = close_revocation V s.revocation_store in
      (first_error e e', record s { store = store'; revocation_store = revocation_store' })
