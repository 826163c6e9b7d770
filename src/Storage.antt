-- ===== src/Storage.antt =====
-- internal/storage/store.go: the interfaces of the two stores. Times are nanoseconds.
pub mod Contract
pub mod Memory
pub mod RevocationKey
pub mod RevocationMemory
pub mod Redis
use blindvault.Base.{ℕ, Bool, Option, List, Text}
use blindvault.Apperr.{GoError, Result}
use blindvault.Context.{Call}

-- NullifierStore
pub record NullifierStore : Type 1 where
  pub State : Type 0
  pub check_and_store : Call → Text → State → Result Bool × State
  pub ping : Call → State → Option GoError
  pub close : State → Option GoError × State

-- RevocationEntry
pub record RevocationEntry : Type 0 where
  pub credential_class : Text
  pub key_epoch : Text
  pub reason : Text
  pub revoked_at : ℕ
  pub revoked_until : Option ℕ
  pub revoked_by : Text

-- RevocationStore; the first argument of an operation is the time of its call.
pub record RevocationStore : Type 1 where
  pub State : Type 0
  pub revoke_class : ℕ → Text → Text → Text → Text → Option ℕ → State → Option GoError × State
  pub is_revoked : ℕ → Text → Text → State → Result (Bool × Option RevocationEntry)
  pub list_revocations : ℕ → State → Result (List RevocationEntry)
  pub unrevoke_class : ℕ → Text → Text → State → Option GoError × State
  pub ping : Call → State → Option GoError
  pub close : State → Option GoError × State
