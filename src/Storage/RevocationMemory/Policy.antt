-- ===== src/Storage/RevocationMemory/Policy.antt =====
-- What revoking and lifting a revocation mean (internal/storage/revocation_memory.go).
use blindvault.Base.{
  ℕ, ◌≡◌, ◌≢◌, ◌⊎◌, inl, inr, Bool, true, false, not, ◌||◌, Option, none, some, [], Text,
  Text_discrete, Map, lookup, lookup-insert, lookup-erase, ◌==◌, ltb, if◌then◌else◌, arith,
}
use blindvault.Apperr.{ok}
use blindvault.Storage.{RevocationEntry}
use blindvault.Storage.Contract.{IsRevoking}
use blindvault.Storage.RevocationKey.{revocation_key, revocation_key_injective}
use blindvault.Storage.RevocationMemory.{revoke_class, has_expired, is_revoked, unrevoke_class}
use blindvault.Validation.Formats.{NoColon}

abbrev State : Type 0
State = Map RevocationEntry

-- the entry of a class and epoch, as the store holds it
abbrev pub entry_of : Text → Text → State → Option RevocationEntry
entry_of class epoch store = lookup (revocation_key class epoch) store

-- An entry is there and has not run out.
abbrev pub is_active : ℕ → Option RevocationEntry → Bool
is_active now none = false
is_active now (some entry) = not (has_expired now entry)

-- The Boolean answer of IsRevoked.
abbrev pub answers : ℕ → Text → Text → State → Bool
answers now class epoch store = elim (is_revoked now class epoch store) [
  | ok (b, entry) ↦ b
  | _ ↦ false
]

-- What the comments and the API reference ask for: a class is blocked at an epoch while the
-- revocation of the pair or that of the whole class is in force.
abbrev pub is_blocked : ℕ → Text → Text → State → Bool
is_blocked now class epoch store =
    is_active now (entry_of class epoch store) || is_active now (entry_of class [] store)

keys_apart :
    (class epoch class' epoch' : Text)
    → NoColon class
    → NoColon class'
    → (class ≢ class') ⊎ (epoch ≢ epoch')
    → revocation_key class epoch ≢ revocation_key class' epoch'
keys_apart class epoch class' epoch' nc nc' differ h =
    let same = revocation_key_injective class epoch class' epoch' nc nc' h in
    elim differ [ inl d ↦ d same.0 | inr d ↦ d same.1 ]

module _ (now : ℕ) (class epoch : Text) (store : State) where
  -- IsRevoked answers as asked for, unless the pair has an entry that has run out.
  pub is_revoked-eq-is_blocked :
      (entry_of class epoch store ≡ none) ⊎ (is_active now (entry_of class epoch store) ≡ true)
      → answers now class epoch store ≡ is_blocked now class epoch store
  unfolding is_revoked
  is_revoked-eq-is_blocked h = ground arith

  -- An entry of the pair that has run out hides a revocation of the whole class that is in force.
  pub is_revoked_masked :
      (entry : RevocationEntry)
      → entry_of class epoch store ≡ some entry
      → has_expired now entry ≡ true
      → is_active now (entry_of class [] store) ≡ true
      → (is_blocked now class epoch store ≡ true) × (answers now class epoch store ≡ false)
  unfolding is_revoked
  is_revoked_masked entry found expired active = ground arith

module _ (class epoch reason by : Text) (until : Option ℕ) (store : State) where
  abbrev made : ℕ → RevocationEntry
  made now = record {
    credential_class = class;
    key_epoch = epoch;
    reason = reason;
    revoked_at = now;
    revoked_until = until;
    revoked_by = by;
  }

  abbrev after : ℕ → State
  after now = (revoke_class now class epoch reason by until store).1

  -- After a revocation of a pair, or of a whole class at the empty epoch, the pair is reported as
  -- revoked exactly until the revocation runs out.
  pub is_revoked-revoke_class :
      (now later : ℕ)
      → answers later class epoch (after now)
        ≡ (elim until [ none ↦ true | some t ↦ not (ltb t later) ])
  unfolding is_revoked revoke_class has_expired
  is_revoked-revoke_class now later = ground (
    arith,
    lookup-insert (revocation_key class epoch) (revocation_key class epoch) (made now) store,
  )

  -- A revocation of a whole class blocks every epoch of it that has no entry of its own, until it
  -- runs out.
  pub is_revoked-revoke_class_wide :
      (now later : ℕ) (e : Text)
      → NoColon class
      → epoch ≡ []
      → e ≢ []
      → entry_of class e store ≡ none
      → answers later class e (after now)
        ≡ (elim until [ none ↦ true | some t ↦ not (ltb t later) ])
  unfolding is_revoked revoke_class has_expired
  is_revoked-revoke_class_wide now later e nc wide ne fresh =
      rw (wide, is_revoked, revoke_class)
        (ground (
          arith,
          keys_apart class e class [] nc nc (inr ne),
          lookup-insert (revocation_key class []) (revocation_key class e) (made now) store,
          lookup-insert (revocation_key class []) (revocation_key class []) (made now) store,
        ))

  -- Revoking one class changes the answer for no other class.
  pub is_revoked-revoke_class_ne :
      (now later : ℕ) (other e : Text)
      → NoColon class
      → NoColon other
      → class ≢ other
      → answers later other e (after now) ≡ answers later other e store
  unfolding is_revoked revoke_class
  is_revoked-revoke_class_ne now later other e nc nco differ = ground (
    arith,
    lookup-insert (revocation_key class epoch) (revocation_key other e) (made now) store,
    lookup-insert (revocation_key class epoch) (revocation_key other []) (made now) store,
    keys_apart class epoch other e nc nco (inl differ),
    keys_apart class epoch other [] nc nco (inl differ),
  )

-- The memory store implements the contract of revocations.
pub memory-IsRevoking : IsRevoking revoke_class is_revoked
memory-IsRevoking = record {
  blocked = λ now later class epoch reason by until store entry after current done answer.
      ground (arith, answer, is_revoked-revoke_class class epoch reason by until store now later);
}

module _ (class epoch : Text) (store : State) where
  -- After a revocation is lifted, only a revocation of the whole class can still block the pair.
  pub is_revoked-unrevoke_class :
      (now later : ℕ)
      → NoColon class
      → answers later class epoch (unrevoke_class now class epoch store).1
        ≡ (if epoch == [] then false else is_active later (entry_of class [] store))
  unfolding is_revoked unrevoke_class
  is_revoked-unrevoke_class now later nc = elim (Text_discrete epoch []) [
    | yes e ↦
        rw (e, is_revoked, unrevoke_class)
          (ground (arith, lookup-erase (revocation_key class []) (revocation_key class []) store))
    | no n ↦ ground (
      arith,
      keys_apart class epoch class [] nc nc (inr n),
      lookup-erase (revocation_key class epoch) (revocation_key class epoch) store,
      lookup-erase (revocation_key class epoch) (revocation_key class []) store,
    )
  ]
