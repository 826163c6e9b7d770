-- ===== src/Client/Files.antt =====
-- pkg/client/state.go: where the pending requests are kept between two runs of a command.
use blindvault.Base.{
  ℕ, ◌<◌, ◌/◌, ◌%◌, ◌≡◌, refl, Bool, true, ◌&&◌, ◌∷◌, ltb, All, Option, none, some, [], Text, bytes,
  lookup, is_empty, if◌then◌else◌, ◌==◌, arith,
}
use blindvault.Apperr.{GoError, Result, ok, err}
use blindvault.Client.State.{ClientState, Disk, get, pending, store, get-store}
use blindvault.Crypto.Blst.{Blst}
use blindvault.Validation.Hex.{encode_to_string, hex_digit}

-- os, path/filepath and encoding/json at the map of requests, with the state of the file system.
pub record Os : Type 1 where
  pub Fs : Type 0
  pub user_home_dir : Result Text
  pub join : Text → Text → Text
  pub mkdir_all : Text → Fs → Option GoError × Fs
  pub read_file : Text → Fs → Result Text
  pub write_file : Text → Text → Fs → Option GoError × Fs
  pub is_not_exist : GoError → Bool
  pub marshal : ClientState → Result Text
  pub unmarshal : Text → Result ClientState

-- Bytes below 128, which JSON keeps as they are.
unfoldable pub is_ascii : Text → Bool
is_ascii [] = true
is_ascii (c ∷ s) = ltb c 128 && is_ascii s

-- What a file system and a JSON codec promise. A JSON object has no order, and the codec replaces
-- what is not UTF-8 in a key by a character that is not ASCII, so what comes back is what is looked
-- up under the ids of ASCII text. The fields of a request are byte slices, kept in base64.
pub record IsOs (O : Os) : Type 0 where
  pub read-write :
      (path text : Text) (fs : O.Fs)
      → (O.write_file path text fs).0 ≡ none
      → O.read_file path (O.write_file path text fs).1 ≡ ok text
  pub read-mkdir :
      (dir path : Text) (fs : O.Fs) → O.read_file path (O.mkdir_all dir fs).1 ≡ O.read_file path fs
  pub unmarshal-marshal :
      (s : ClientState) (text : Text)
      → O.marshal s ≡ ok text
      → (t : ClientState) × (O.unmarshal text ≡ ok t)
        × ((id : Text) → is_ascii id ≡ true → lookup id t ≡ lookup id s)

-- generateID: eight hex digits of four random bytes, or the time, as decimal text, when the random
-- generator fails
unfoldable pub generate_id : Result Text → Text → Text
generate_id (ok b) now = encode_to_string b
generate_id (err e) now = now

hex_digit-lt : (n : ℕ) → n < 16 → ltb (hex_digit n) 128 ≡ true
unfolding hex_digit
hex_digit-lt n h = ground arith

encode_to_string-is_ascii : (b : Text) → All (λ x. x < 256) b → is_ascii (encode_to_string b) ≡ true
unfolding encode_to_string is_ascii
encode_to_string-is_ascii [] h = refl
encode_to_string-is_ascii (x ∷ b) h =
    ground (arith, hex_digit-lt (x / 16), hex_digit-lt (x % 16), encode_to_string-is_ascii b h.1)

-- An id of random bytes, or of a time that is written in ASCII, is ASCII text.
pub generate_id-is_ascii :
    (random : Result Text) (now : Text)
    → ((b : Text) → random ≡ ok b → All (λ x. x < 256) b)
    → is_ascii now ≡ true
    → is_ascii (generate_id random now) ≡ true
unfolding generate_id
generate_id-is_ascii (ok b) now drawn written = encode_to_string-is_ascii b (drawn b refl)
generate_id-is_ascii (err e) now drawn written = written

-- What a State holds: its path, and the map.
pub record Opened : Type 0 where
  pub path : Text
  pub requests : ClientState

module _ (O : Os) where
  -- State.load
  unfoldable pub load : Text → O.Fs → Result ClientState
  load path fs = elim (O.read_file path fs) [ err e ↦ err e | ok text ↦ O.unmarshal text ]

  -- State.save
  unfoldable pub save : Text → ClientState → O.Fs → Option GoError × O.Fs
  save path s fs = elim (O.marshal s) [ err e ↦ (some e, fs) | ok text ↦ O.write_file path text fs ]

  abbrev pub state_dir : Text → Text
  state_dir dir = O.join dir (bytes ".blindvault")

  abbrev pub state_path : Text → Text
  state_path dir = O.join (state_dir dir) (bytes "state.json")

  -- the end of NewStateWithDir: a missing file is an empty state, any other failure is an error
  unfoldable pub load_or_empty : Text → O.Fs → Result Opened
  unfolding load
  load_or_empty path fs = elim (load path fs) [
    | err e ↦ if O.is_not_exist e then ok (record { path = path; requests = [] }) else err e
    | ok s ↦ ok (record { path = path; requests = s })
  ]

  -- NewStateWithDir
  unfoldable pub new_state_with_dir : Text → O.Fs → Result Opened × O.Fs
  unfolding load_or_empty
  new_state_with_dir dir fs =
      let (failed, fs') = O.mkdir_all (state_dir dir) fs in
      elim failed [ some e ↦ (err e, fs') | none ↦ (load_or_empty (state_path dir) fs', fs') ]

  -- NewState
  unfoldable pub new_state : Text → O.Fs → Result Opened × O.Fs
  unfolding new_state_with_dir
  new_state home_dir fs =
      if is_empty home_dir
      then elim O.user_home_dir [ err e ↦ (err e, fs) | ok home ↦ new_state_with_dir home fs ]
      else new_state_with_dir home_dir fs

  -- the Disk of a state file: what saving to it reports
  abbrev pub disk_of : Text → O.Fs → Disk
  disk_of path fs s = (save path s fs).0

  module _ (L : IsOs O) where
    -- What was saved is what a later load finds.
    abbrev pub IsReread : Text → ClientState → O.Fs → Type 0
    IsReread path s fs =
        (t : ClientState) × (load path fs ≡ ok t)
        × ((id : Text) → is_ascii id ≡ true → lookup id t ≡ lookup id s)

    pub load-save :
        (path : Text) (s : ClientState) (fs : O.Fs)
        → (save path s fs).0 ≡ none
        → IsReread path s (save path s fs).1
    unfolding load save
    load-save path s fs h = cases (O.marshal s) refl
      where
        cases : (r : Result Text) → O.marshal s ≡ r → IsReread path s (save path s fs).1
        cases (err e) p = absurd (ground arith)
        cases (ok text) p =
            let (t, decoded, same) = L.unmarshal-marshal s text p in
            (t, ground (arith, L.read-write path text fs, decoded), same)

    -- A request that one process has stored without an error is what another process finds under its
    -- id when it opens the same directory, with every request that was there before, for all ids of
    -- ASCII text, as generateID makes them.
    pub new_state-store :
        (B : Blst) (dir id : Text) (r : B.Scalar) (msg : Text) (witness : B.G1) (s : ClientState)
        (fs : O.Fs) (other : Text)
        → is_ascii other ≡ true
        → let path = state_path dir in
          let stored = store B (disk_of path fs) id r msg witness s in
          let fs' = (save path stored.1 fs).1 in
          stored.0 ≡ ok id
          → (O.mkdir_all (state_dir dir) fs').0 ≡ none
          → (t : ClientState) × ((new_state_with_dir dir fs').0
              ≡ ok (record { path = path; requests = t }))
            × (get other t ≡ (if id == other then ok (pending B r msg witness) else get other s))
    unfolding store new_state_with_dir load_or_empty load get
    new_state-store B dir id r msg witness s fs other plain saved made =
        let path = state_path dir in
        let s' = (store B (disk_of path fs) id r msg witness s).1 in
        let (t, loaded, same) = load-save path s' fs (ground arith) in
        (
          t,
          ground (arith, loaded, L.read-mkdir (state_dir dir) path (save path s' fs).1),
          ground (arith, same other plain, get-store B (disk_of path fs) id other r msg witness s),
        )
