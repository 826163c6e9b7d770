-- ===== src/Commands/Session/Saved.antt =====
-- What `bv blind` leaves behind in the state file, and what the next command finds there
-- (cmd/bv/blind.go, pkg/client/state.go).
use blindvault.Base.{◌≡◌, refl, sym, ◌∙◌, ap, true, none, some, [], Text, lookup, arith}
use blindvault.Apperr.{Result, ok, err}
use blindvault.Client.{BlindResult, blind}
use blindvault.Client.Files.{
  Os, IsOs, Opened, state_dir, state_path, disk_of, save, load, load_or_empty, new_state,
  new_state_with_dir, generate_id, load-save, is_ascii, generate_id-is_ascii,
}
use blindvault.Client.Process.{blind_saved}
use blindvault.Client.State.{ClientState, get, store}
use blindvault.Commands.{Client, exit, blinded_json, new_client}
use blindvault.Commands.Blind.{Entropy, IsEntropy, report_blind, blind_message_flag, blind_cmd}
use blindvault.Commands.Session.{default_url, default_dst, blind_args, blind_cmd-blind_args}
use blindvault.Crypto.Blst.{Blst}
use blindvault.Service.Credentials.Points.{hex_g1}

module _ (O : Os) (B : Blst) where
  -- The client that NewClient makes of a state.
  abbrev pub client_of : Opened → Client
  client_of state = record { server_url = default_url; dst = default_dst; state = state }

  -- Client.Blind of a command, with the state and the file system that it was opened on.
  abbrev pub blinds : Entropy → Text → Opened → O.Fs → Result (BlindResult B) × ClientState
  blinds n msg state fs =
      blind B (disk_of O state.path fs) (some default_dst) n.scalar_random
        (generate_id n.id_random n.time) msg state.requests

  -- What `bv blind` has done when it printed a blinded point, a witness and an id.
  pub record HasBlinded (n : Entropy) (msg : Text) (fs : O.Fs) (blinded witness id : Text)
      : Type 0 where
    pub state : Opened
    pub fs' : O.Fs
    pub opened : new_client O default_url default_dst fs ≡ (ok (client_of state), fs')
    pub b : BlindResult B
    pub made : (blinds n msg state fs').0 ≡ ok b
    pub blinded_text : blinded ≡ hex_g1 B b.blinded
    pub witness_text : witness ≡ hex_g1 B b.witness
    pub id_text : id ≡ b.request_id
    pub saved :
        (blind_cmd O B n (blind_args msg) fs).1
        ≡ (save O state.path (blinds n msg state fs').1 fs').1

  blind_flag-HasBlinded :
      (n : Entropy) (msg : Text) (fs : O.Fs) (blinded witness id : Text)
      → (blind_message_flag O B n msg default_url default_dst fs).0
        ≡ exit 0 (blinded_json blinded witness id)
      → HasBlinded n msg fs blinded witness id
  unfolding blind_message_flag blind_saved blind report_blind new_client
  blind_flag-HasBlinded n msg fs blinded witness id h = cases (new_state O [] fs) refl
    where
      after :
          (state : Opened) (fs' : O.Fs)
          → new_state O [] fs ≡ (ok state, fs')
          → (r : Result (BlindResult B)) → (blinds n msg state fs').0 ≡ r
          → HasBlinded n msg fs blinded witness id
      after state fs' p (err e) q = absurd (ground arith)
      after state fs' p (ok b) q = record {
        state = state;
        fs' = fs';
        opened = ground arith;
        b = b;
        made = q;
        blinded_text = ground arith;
        witness_text = ground arith;
        id_text = ground arith;
        saved = rw (blind_cmd-blind_args O B n msg fs) (ground arith);
      }

      cases :
          (r : Result Opened × O.Fs)
          → new_state O [] fs ≡ r
          → HasBlinded n msg fs blinded witness id
      cases (err e, fs') p = absurd (ground arith)
      cases (ok state, fs') p = after state fs' p (blinds n msg state fs').0 refl

  -- When `bv blind` prints its result, the blinding succeeded and its request is saved.
  pub blind_cmd-HasBlinded :
      (n : Entropy) (msg : Text) (fs : O.Fs) (blinded witness id : Text)
      → (blind_cmd O B n (blind_args msg) fs).0 ≡ exit 0 (blinded_json blinded witness id)
      → HasBlinded n msg fs blinded witness id
  blind_cmd-HasBlinded n msg fs blinded witness id h =
      blind_flag-HasBlinded n msg fs blinded witness id
        (ap (λ r. r.0) (sym (blind_cmd-blind_args O B n msg fs)) ∙ h)

  pub new_client-path :
      (home : Text) (fs fs' : O.Fs) (state : Opened)
      → O.user_home_dir ≡ ok home
      → new_client O default_url default_dst fs ≡ (ok (client_of state), fs')
      → state.path ≡ state_path O home
  unfolding new_client new_state new_state_with_dir load_or_empty
  new_client-path home fs fs' state at opened = ground arith

  -- A blinding that reports no error has saved the state.
  pub blinds-save :
      (n : Entropy) (msg : Text) (state : Opened) (fs : O.Fs) (b : BlindResult B)
      → (blinds n msg state fs).0 ≡ ok b
      → (save O state.path (blinds n msg state fs).1 fs).0 ≡ none
  unfolding blind store
  blinds-save n msg state fs b h = ground arith

  -- The id under which a blinding was kept is ASCII text.
  blinds-is_ascii :
      (n : Entropy) (msg : Text) (state : Opened) (fs : O.Fs) (b : BlindResult B)
      → IsEntropy n
      → (blinds n msg state fs).0 ≡ ok b
      → is_ascii b.request_id ≡ true
  unfolding blind store
  blinds-is_ascii n msg state fs b T h =
      let named : b.request_id ≡ generate_id n.id_random n.time = ground arith in
      ap is_ascii named ∙ generate_id-is_ascii n.id_random n.time T.id_bytes T.time_text

  -- The id that `bv blind` prints is ASCII text.
  pub HasBlinded-is_ascii :
      (n : Entropy) (msg : Text) (fs : O.Fs) (blinded witness id : Text)
      → IsEntropy n
      → HasBlinded n msg fs blinded witness id
      → is_ascii id ≡ true
  HasBlinded-is_ascii n msg fs blinded witness id T h =
      ap is_ascii h.id_text ∙ blinds-is_ascii n msg h.state h.fs' h.b T h.made

  new_client-load :
      (home : Text) (fs : O.Fs) (s : ClientState)
      → O.user_home_dir ≡ ok home
      → (O.mkdir_all (state_dir O home) fs).0 ≡ none
      → load O (state_path O home) (O.mkdir_all (state_dir O home) fs).1 ≡ ok s
      → new_client O default_url default_dst fs ≡ (
        ok (client_of (record { path = state_path O home; requests = s })),
        (O.mkdir_all (state_dir O home) fs).1,
      )
  unfolding new_client new_state new_state_with_dir load_or_empty
  new_client-load home fs s at made loaded = ground arith

  -- The next process in the same home finds the request.
  pub record IsKept (fs : O.Fs) (id : Text) (s : ClientState) : Type 0 where
    pub state : Opened
    pub fs' : O.Fs
    pub opened : new_client O default_url default_dst fs ≡ (ok (client_of state), fs')
    pub found : get id state.requests ≡ get id s

  module _ (L : IsOs O) where
    load-mkdir : (dir path : Text) (fs : O.Fs) → load O path (O.mkdir_all dir fs).1 ≡ load O path fs
    unfolding load
    load-mkdir dir path fs = ground (arith, L.read-mkdir dir path fs)

    get-lookup : (id : Text) (t s : ClientState) → lookup id t ≡ lookup id s → get id t ≡ get id s
    unfolding get
    get-lookup id t s same = ground (arith, same)

    pub save-IsKept :
        (home id : Text) (s : ClientState) (fs : O.Fs)
        → O.user_home_dir ≡ ok home
        → (save O (state_path O home) s fs).0 ≡ none
        → is_ascii id ≡ true
        → let fs' = (save O (state_path O home) s fs).1 in
          (O.mkdir_all (state_dir O home) fs').0 ≡ none → IsKept fs' id s
    save-IsKept home id s fs at saved plain made =
        let path = state_path O home in
        let fs' = (save O path s fs).1 in
        let (t, loaded, same) = load-save O L path s fs saved in
        record {
          state = record { path = path; requests = t };
          fs' = (O.mkdir_all (state_dir O home) fs').1;
          opened = new_client-load home fs' t at made (load-mkdir _ path fs' ∙ loaded);
          found = get-lookup id t s (same id plain);
        }
