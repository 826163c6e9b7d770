-- ===== src/Storage/RevocationMemory.antt =====
-- internal/storage/revocation_memory.go
pub mod Policy
use blindvault.Base.{
  ℕ, Bool, true, false, Option, none, some, List, [], ◌∷◌, Text, Map, lookup, insert, erase, ltb,
  if◌then◌else◌,
}
use blindvault.Apperr.{GoError, Result, ok, err}
use blindvault.Context.{Call}
use blindvault.Storage.{RevocationEntry, RevocationStore}
use blindvault.Storage.RevocationKey.{revocation_key}

-- InMemoryRevocationStore.RevokeClass
unfoldable pub revoke_class :
    ℕ
    → Text
    → Text
    → Text
    → Text
    → Option ℕ
    → Map RevocationEntry
    → Option GoError × Map RevocationEntry
revoke_class now class epoch reason revoked_by revoked_until store =
    let entry : RevocationEntry = record {
      credential_class = class;
      key_epoch = epoch;
      reason = reason;
      revoked_at = now;
      revoked_until = revoked_until;
      revoked_by = revoked_by;
    } in
    (none, insert (revocation_key class epoch) entry store)

-- entry.RevokedUntil != nil && time.Now().UTC().After(*entry.RevokedUntil)
unfoldable pub has_expired : ℕ → RevocationEntry → Bool
has_expired now entry = elim entry.revoked_until [ none ↦ false | some until ↦ ltb until now ]

-- what IsRevoked returns at an entry that it has found
verdict : ℕ → RevocationEntry → Result (Bool × Option RevocationEntry)
verdict now entry = if has_expired now entry then ok (false, none) else ok (true, some entry)

-- InMemoryRevocationStore.IsRevoked
unfoldable pub is_revoked :
    ℕ → Text → Text → Map RevocationEntry → Result (Bool × Option RevocationEntry)
unfolding verdict
is_revoked now class epoch store = elim (lookup (revocation_key class epoch) store) [
  | some entry ↦ verdict now entry
  | none ↦ elim (lookup (revocation_key class []) store) [
    | some entry ↦ verdict now entry
    | none ↦ ok (false, none)
  ]
]

entries : Map RevocationEntry → List RevocationEntry
entries [] = []
entries ((k, entry) ∷ store) = entry ∷ entries store

-- InMemoryRevocationStore.ListRevocations
unfoldable pub list_revocations : ℕ → Map RevocationEntry → Result (List RevocationEntry)
unfolding entries
list_revocations now store = ok (entries store)

-- InMemoryRevocationStore.UnrevokeClass
unfoldable pub unrevoke_class :
    ℕ → Text → Text → Map RevocationEntry → Option GoError × Map RevocationEntry
unrevoke_class now class epoch store = (none, erase (revocation_key class epoch) store)

-- InMemoryRevocationStore.Ping
unfoldable pub ping : Call → Map RevocationEntry → Option GoError
ping c store = c.done

-- InMemoryRevocationStore.Close
unfoldable pub close : Map RevocationEntry → Option GoError × Map RevocationEntry
close store = (none, [])

-- NewInMemoryRevocationStore
abbrev pub new_store : Map RevocationEntry
new_store = []

abbrev pub memory_store : RevocationStore
memory_store = record {
  State = Map RevocationEntry;
  revoke_class = revoke_class;
  is_revoked = is_revoked;
  list_revocations = list_revocations;
  unrevoke_class = unrevoke_class;
  ping = ping;
  close = close;
}
