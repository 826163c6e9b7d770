-- ===== src/Storage/Memory.antt =====
-- internal/storage/nullifier_memory.go
use blindvault.Base.{
  Bool, true, false, Option, none, some, [], Text, Map, lookup, insert, lookup-insert,
  if◌then◌else◌, arith,
}
use blindvault.Apperr.{GoError, Result, ok, err}
use blindvault.Context.{Call}
use blindvault.Storage.{NullifierStore}
use blindvault.Storage.Contract.{IsNullifierSet}

-- `s.store[key]`, false for a key that is not there
unfoldable pub marked : Map Bool → Text → Bool
marked store key = elim (lookup key store) [ none ↦ false | some b ↦ b ]

-- the body under the lock; a test-and-set by one caller at a time
test_and_set : Text → Map Bool → Result Bool × Map Bool
test_and_set key store =
    if marked store key then (ok false, store) else (ok true, insert key true store)

-- InMemoryNullifierStore.CheckAndStore
unfoldable pub check_and_store : Call → Text → Map Bool → Result Bool × Map Bool
unfolding test_and_set
check_and_store c nullifier store = elim c.done [
  | some e ↦ (err e, store)
  | none ↦ test_and_set nullifier store
]

-- InMemoryNullifierStore.Ping
unfoldable pub ping : Call → Map Bool → Option GoError
ping c store = c.done

-- InMemoryNullifierStore.Close
unfoldable pub close : Map Bool → Option GoError × Map Bool
close store = (none, store)

-- NewInMemoryNullifierStore
abbrev pub new_store : Map Bool
new_store = []

abbrev pub memory_store : NullifierStore
memory_store = record {
  State = Map Bool;
  check_and_store = check_and_store;
  ping = ping;
  close = close;
}

-- The in-memory store implements the contract: a nullifier is new exactly when it is not held,
-- then it is held, and a call that fails changes nothing.
pub memory_store-IsNullifierSet : IsNullifierSet memory_store
unfolding check_and_store marked
memory_store-IsNullifierSet = record {
  holds = marked;
  answer = λ c k s b h. ground arith;
  stored = λ c k j s b h. ground (arith, lookup-insert k j true s);
  failed = λ c k j s e h. ground arith;
}
