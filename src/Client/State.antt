-- ===== src/Client/State.antt =====
-- pkg/client/state.go: the pending requests of a client, kept in a file.
use blindvault.Base.{
  ◌≡◌, Option, none, some, Text, bytes, Map, lookup, insert, erase, lookup-insert, lookup-erase,
  if◌then◌else◌, ◌==◌, arith,
}
use blindvault.Apperr.{GoError, plain, Result, ok, err}
use blindvault.Crypto.Blst.{Blst}

-- PendingRequest
pub record PendingRequest : Type 0 where
  pub blinding_factor : Text
  pub text : Text
  pub witness : Text

-- State: the map behind the mutex
abbrev pub ClientState : Type 0
ClientState = Map PendingRequest

-- What State.save comes to for a map: the JSON encoding and os.WriteFile.
abbrev pub Disk : Type 0
Disk = ClientState → Option GoError

-- State.Get
unfoldable pub get : Text → ClientState → Result PendingRequest
get id s = elim (lookup id s) [
  | none ↦ err (plain (bytes "request not found"))
  | some request ↦ ok request
]

-- State.Delete; the entry is gone also when saving fails
unfoldable pub delete : Disk → Text → ClientState → Option GoError × ClientState
delete disk id s = (disk (erase id s), erase id s)

module _ (B : Blst) where
  -- the entry of a scalar, a message and a witness
  unfoldable pub pending : B.Scalar → Text → B.G1 → PendingRequest
  pending r msg witness = record {
    blinding_factor = B.scalar_serialize r;
    text = msg;
    witness = B.compress1 witness;
  }

  -- State.Store; `id` is what generateID yields. The entry stays also when saving fails.
  unfoldable pub store :
      Disk → Text → B.Scalar → Text → B.G1 → ClientState → Result Text × ClientState
  unfolding pending
  store disk id r msg witness s =
      let s' : ClientState = insert id (pending r msg witness) s in
      elim (disk s') [ some e ↦ (err e, s') | none ↦ (ok id, s') ]

  -- A request that was stored is found under its id, and no other request is changed.
  pub get-store :
      (disk : Disk) (id other : Text) (r : B.Scalar) (msg : Text) (witness : B.G1) (s : ClientState)
      → get other (store disk id r msg witness s).1
        ≡ (if id == other then ok (pending r msg witness) else get other s)
  unfolding get store
  get-store disk id other r msg witness s =
      ground (arith, lookup-insert id other (pending r msg witness) s)

-- A deleted request is not found, and no other request is changed.
pub get-delete :
    (disk : Disk) (id other : Text) (s : ClientState)
    → get other (delete disk id s).1
      ≡ (if id == other then err (plain (bytes "request not found")) else get other s)
unfolding get delete
get-delete disk id other s = ground (arith, lookup-erase id other s)
