-- ===== src/Storage/Contract.antt =====
-- What the stores promise (internal/storage/store.go): the nullifier store is a set, and one call
-- tests and adds; the revocation store answers for what was revoked.
use blindvault.Base.{
  ℕ, ◌+◌, ◌≤◌, ◌≡◌, ◌≢◌, Bool, true, false, not, ◌==◌, Option, none, some, Text, leb, if◌then◌else◌,
}
use blindvault.Apperr.{GoError, Result, ok, err}
use blindvault.Context.{Call}
use blindvault.Storage.{NullifierStore, RevocationEntry}
use blindvault.Storage.Redis.Laws.{millisecond}

pub record IsNullifierSet (S : NullifierStore) : Type 0 where
  -- the abstract view: which nullifiers are held
  pub holds : S.State → Text → Bool
  pub answer :
      (c : Call) (k : Text) (s : S.State) (b : Bool)
      → (S.check_and_store c k s).0 ≡ ok b
      → b ≡ not (holds s k)
  pub stored :
      (c : Call) (k j : Text) (s : S.State) (b : Bool)
      → (S.check_and_store c k s).0 ≡ ok b
      → holds (S.check_and_store c k s).1 j ≡ (if k == j then true else holds s j)
  pub failed :
      (c : Call) (k j : Text) (s : S.State) (e : GoError)
      → (S.check_and_store c k s).0 ≡ err e
      → holds (S.check_and_store c k s).1 j ≡ holds s j

-- A revocation with this end is in force at a time, by at least a millisecond, the unit of Redis.
abbrev pub is_current : ℕ → Option ℕ → Bool
is_current now none = true
is_current now (some until) = leb (now + millisecond) until

-- What RevokeClass and IsRevoked promise together: a pair whose revocation was taken is never
-- reported as free while the revocation is in force.
pub record IsRevoking {State : Type 0}
    (revoke_class : ℕ → Text → Text → Text → Text → Option ℕ → State → Option GoError × State)
    (is_revoked : ℕ → Text → Text → State → Result (Bool × Option RevocationEntry)) : Type 0 where
  pub blocked :
      (now later : ℕ) (class epoch reason by : Text) (until : Option ℕ) (s : State)
      (entry : Option RevocationEntry)
      → now ≤ later
      → is_current later until ≡ true
      → (revoke_class now class epoch reason by until s).0 ≡ none
      → is_revoked later class epoch (revoke_class now class epoch reason by until s).1
        ≢ ok (false, entry)
