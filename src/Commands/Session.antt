-- ===== src/Commands/Session.antt =====
-- A credential from `bv blind` to `bv redeem` (cmd/bv), each command in a process of its own.
pub mod Saved
pub mod Redeemed
use blindvault.Base.{
  ℕ, ◌≡◌, refl, sym, ◌∙◌, ap, Bool, true, false, Option, none, some, [], ◌∷◌, ◌++◌, List, Text,
  bytes, is_empty, lookup, insert, Text_discrete, nat_eq, arith, if◌then◌else◌,
}
use blindvault.Apperr.{GoError, Result, ok, err}
use blindvault.Api.Types.{ConsumeRequest}
use blindvault.Client.{Reply, BlindResult, blind, blind_point, unblind, read_point, redeem}
use blindvault.Client.Files.{
  Os, IsOs, Opened, state_dir, state_path, disk_of, save, load, load_or_empty, new_state,
  new_state_with_dir, generate_id, load-save,
}
use blindvault.Client.Process.{blind_saved, unblind_saved}
use blindvault.Client.Protocol.{read_point-hex_g1}
use blindvault.Client.State.{ClientState, get, store}
use blindvault.Commands.{Client, Outcome, exit, line, blinded_json, new_client}
use blindvault.Commands.Blind.{Entropy, report_blind, blind_message_flag, blind_cmd}
use blindvault.Commands.Flags.{flag, parse, with_parsed}
use blindvault.Commands.Points.{read_g1}
use blindvault.Commands.Redeem.{
  RedeemTexts, redeem_points, redeem_with, redeem_given, redeem_texts, report_redeem, redeem_cmd,
}
use blindvault.Commands.Unblind.{report_unblind, unblind_with, unblind_texts, unblind_cmd}
use blindvault.Commands.Verify.Issued.{is_empty-encode}
use blindvault.Crypto.Blst.{Blst, Platform}
use blindvault.Crypto.Laws.{IsEncoding}
use blindvault.Service.Credentials.Points.{IsBytes, hex_g1}

-- The defaults of the flags `-server` and `-dst`.
abbrev pub default_url : Text
default_url = bytes "http://localhost:8080"

abbrev pub default_dst : Text
default_dst = bytes "BCIS-V1-MESSAGE"

-- The arguments of the three commands.
abbrev pub blind_args : Text → List Text
blind_args msg = bytes "--message" ∷ (msg ∷ [])

abbrev pub unblind_args : Text → Text → List Text
unblind_args sig id = bytes "--signature" ∷ (sig ∷ (bytes "--id" ∷ (id ∷ [])))

abbrev pub redeem_args : RedeemTexts → List Text
redeem_args t =
    bytes "--signature"
    ∷ (t.signature
        ∷ (bytes "--witness"
            ∷ (t.witness ∷ (bytes "--class" ∷ (t.class ∷ (bytes "--epoch" ∷ (t.epoch ∷ [])))))))

module _ (O : Os) (B : Blst) where
  pub blind_cmd-blind_args :
      (n : Entropy) (msg : Text) (fs : O.Fs)
      → blind_cmd O B n (blind_args msg) fs
        ≡ blind_message_flag O B n msg default_url default_dst fs
  unfolding blind_cmd with_parsed parse flag lookup insert Text_discrete
  blind_cmd-blind_args n msg fs = refl

  unblind_cmd-unblind_args :
      (sig id : Text) (fs : O.Fs)
      → unblind_cmd O B (unblind_args sig id) fs
        ≡ unblind_texts O B sig id default_url default_dst fs
  unfolding unblind_cmd with_parsed parse flag lookup insert Text_discrete
  unblind_cmd-unblind_args sig id fs = refl

  redeem_cmd-redeem_args :
      (post : Text → ConsumeRequest → Result Reply) (t : RedeemTexts) (fs : O.Fs)
      → redeem_cmd O B post (redeem_args t) fs ≡ redeem_given O B post t default_url default_dst fs
  unfolding redeem_cmd with_parsed parse redeem_texts flag lookup insert Text_discrete
  redeem_cmd-redeem_args post t fs = refl

  -- `bv blind`, where the blinding and its saving succeed.
  pub blind_cmd-blind :
      (n : Entropy) (msg : Text) (fs fs' : O.Fs) (state : Opened) (b : BlindResult B)
      → is_empty msg ≡ false
      → n.written ≡ none
      → new_client O default_url default_dst fs
        ≡ (ok (record { server_url = default_url; dst = default_dst; state = state }), fs')
      → let id = generate_id n.id_random n.time in
        let blinds =
          blind B
            (disk_of O state.path fs')
            (some default_dst)
            n.scalar_random
            id
            msg
            state.requests in
        blinds.0 ≡ ok b
        → blind_cmd O B n (blind_args msg) fs ≡ (
          exit 0 (blinded_json (hex_g1 B b.blinded) (hex_g1 B b.witness) b.request_id),
          (save O state.path blinds.1 fs').1,
        )
  unfolding blind_message_flag blind_saved report_blind blind
  blind_cmd-blind n msg fs fs' state b given written opened blinds =
      rw (blind_cmd-blind_args n msg fs, given, opened) (ground (arith, written, blinds))

  module _ (P : Platform) (E : IsEncoding B) (W : IsBytes B) where
    read_g1-hex_g1 :
        (not_hex not_point : Text) (p : B.G1)
        → B.in_g1 p ≡ true
        → read_g1 B not_hex not_point (hex_g1 B p) ≡ ok p
    unfolding read_g1 read_point
    read_g1-hex_g1 not_hex not_point p h = ground (arith, read_point-hex_g1 P B E W p h)

    -- `bv unblind` in a home whose file holds a state in which Unblind succeeds.
    pub unblind_cmd-unblind :
        (fs fs' : O.Fs) (state : Opened) (id : Text) (blind_sig sig : B.G1)
        → is_empty id ≡ false
        → B.in_g1 blind_sig ≡ true
        → new_client O default_url default_dst fs
          ≡ (ok (record { server_url = default_url; dst = default_dst; state = state }), fs')
        → (unblind B (disk_of O state.path fs') id blind_sig state.requests).0 ≡ ok sig
        → (unblind_cmd O B (unblind_args (hex_g1 B blind_sig) id) fs).0
          ≡ exit 0 (line (bytes "Unblinded signature: " ++ hex_g1 B sig))
    unfolding unblind_texts unblind_with unblind_saved report_unblind
    unblind_cmd-unblind fs fs' state id blind_sig sig given member opened unblinds =
        rw (unblind_cmd-unblind_args (hex_g1 B blind_sig) id fs, opened)
          (ground (
            arith,
            unblinds,
            is_empty-encode (B.compress1 blind_sig),
            E.compress1_nonempty blind_sig,
            read_g1-hex_g1 (bytes "Invalid signature hex") (bytes "Invalid signature point")
                blind_sig member,
          ))

    -- `bv redeem` with a signature and a witness of the group, where Redeem reports success.
    pub redeem_cmd-redeem :
        (post : Text → ConsumeRequest → Result Reply) (fs fs' : O.Fs) (state : Opened)
        (sig witness : B.G1) (class epoch : Text)
        → is_empty class ≡ false
        → is_empty epoch ≡ false
        → B.in_g1 sig ≡ true
        → B.in_g1 witness ≡ true
        → new_client O default_url default_dst fs
          ≡ (ok (record { server_url = default_url; dst = default_dst; state = state }), fs')
        → redeem B (post default_url) sig witness class epoch ≡ ok true
        → let texts : RedeemTexts = record {
          signature = hex_g1 B sig;
          witness = hex_g1 B witness;
          class = class;
          epoch = epoch;
        } in
          (redeem_cmd O B post (redeem_args texts) fs).0
          ≡ exit 0 (line (bytes "Credential redeemed successfully"))
    unfolding redeem_given redeem_with redeem_points report_redeem
    redeem_cmd-redeem post fs fs' state sig witness class epoch has_class has_epoch s w opened
          redeems =
        rw (redeem_cmd-redeem_args post _ fs, opened)
          (ground (
            arith,
            redeems,
            is_empty-encode (B.compress1 sig),
            is_empty-encode (B.compress1 witness),
            E.compress1_nonempty sig,
            E.compress1_nonempty witness,
            read_g1-hex_g1 (bytes "Error: invalid hex for signature") (bytes "Invalid signature")
                sig s,
            read_g1-hex_g1 (bytes "Error: invalid hex for witness") (bytes "Invalid witness")
                witness w,
          ))
