-- ===== src/Tests/CommandRuns.antt =====
-- The commands of cmd/bv at the toy server, in a home without a state file.
use blindvault.Base.{
  ◌≡◌, refl, true, ap, none, [], ◌∷◌, ◌++◌, Text, bytes, lookup, insert, Text_discrete, arith,
  if◌then◌else◌, ◌==◌,
}
use blindvault.Apperr.{Result, ok, err}
use blindvault.Api.Handlers.Consume.{redemption, consume_response}
use blindvault.Api.Types.{ConsumeRequest}
use blindvault.Client.{Reply, blind, blind_point}
use blindvault.Client.Files.{
  Opened, load, load_or_empty, new_state, new_state_with_dir, save, generate_id, state_path,
  disk_of, new_state-store, is_ascii,
}
use blindvault.Client.Process.{blind_saved}
use blindvault.Client.State.{ClientState, get, store, pending}
use blindvault.Commands.{exit, line, blinded_json, usage, help, new_client}
use blindvault.Commands.Blind.{Entropy, IsEntropy, report_blind, blind_message_flag, blind_cmd}
use blindvault.Commands.Flags.{flag, parse, with_parsed}
use blindvault.Commands.Session.{default_url, default_dst, blind_args, unblind_args, redeem_args}
use blindvault.Commands.Session.Redeemed.{received, redeem_cmd-unblind_cmd-blind_cmd}
use blindvault.Commands.Session.Saved.{client_of}
use blindvault.Commands.Redeem.{redeem_cmd}
use blindvault.Commands.Unblind.{unblind_cmd}
use blindvault.Commands.Verify.{verify_cmd}
use blindvault.Commands.Verify.Issued.{verify_args, verify_cmd-issue}
use blindvault.Crypto.Engine.{hash_to_curve, blind_message}
use blindvault.Crypto.Scalar.{new_random_scalar}
use blindvault.Service.Credentials.Points.{hex_g1}
use blindvault.Tests.ToyBlst.{
  F3, one, two, mul, hash, toy_blst, toy_platform, toy_IsGroup, toy_IsField, toy_IsPairing,
  toy_IsEncoding, toy_IsBytes,
}
use blindvault.Service.Credentials.{ConsumeResult}
use blindvault.Service.Credentials.Consume.{consume}
use blindvault.Tests.ProtocolRuns
use blindvault.Tests.ProtocolRuns.{toy_result, issued, admitted, fresh, live, later}
use blindvault.Tests.ToyService.{epoch, class, toy_service, quiet}
use blindvault.Tests.ToyOs.{toy_os, toy_IsOs, read, encode}
use blindvault.Validation.Hex.{encode_to_string, hex_digit}

abbrev entropy : Entropy
entropy = record {
  scalar_random = ok (bytes "odd");
  id_random = ok (127 ∷ []);
  time = bytes "1700000000";
  written = none;
}

entropy-IsEntropy : IsEntropy entropy
unfolding is_ascii
entropy-IsEntropy = record { id_bytes = λ b h. ground arith; time_text = refl }

printed :
    (blind_cmd toy_os toy_blst entropy (blind_args (bytes "m")) none).0
    ≡ exit 0 (blinded_json (hex_g1 toy_blst one) (hex_g1 toy_blst two) (bytes "7f"))
unfolding blind_cmd with_parsed parse flag lookup insert Text_discrete blind_message_flag new_client
    new_state new_state_with_dir load_or_empty load read blind_saved blind_point blind hash_to_curve
    new_random_scalar blind_message hash mul store report_blind save encode generate_id
    encode_to_string hex_digit
printed = refl

-- The server as a client reaches it: the consume handler of the toy service.
abbrev toy_post : Text → ConsumeRequest → Result Reply
toy_post url req = elim (consume toy_platform toy_blst quiet 9 (redemption req) later).0 [
  | err e ↦ err e
  | ok r ↦ ok (received (consume_response r.status r.error))
]

toy_post_answers :
    (req : ConsumeRequest) (r : ConsumeResult)
    → (consume toy_platform toy_blst quiet 9 (redemption req) later).0 ≡ ok r
    → toy_post default_url req ≡ ok (received (consume_response r.status r.error))
toy_post_answers req r h = ground (arith, h)

abbrev empty_state : Opened
empty_state = record {
  path = bytes "/home" ++ bytes ".blindvault" ++ bytes "state.json";
  requests = [];
}

opened :
    new_client toy_os default_url default_dst none
    ≡ (ok (client_of toy_os toy_blst empty_state), none)
unfolding new_client new_state new_state_with_dir load_or_empty load read
opened = refl

redeem_cmd-unblind_cmd-blind_cmd_example :
    (sig : F3) × ((unblind_cmd toy_os toy_blst
        (unblind_args toy_result.blind_signature (bytes "7f"))
        (blind_cmd toy_os toy_blst entropy (blind_args (bytes "m")) none).1).0
      ≡ exit 0 (line (bytes "Unblinded signature: " ++ hex_g1 toy_blst sig)))
    × ((redeem_cmd toy_os toy_blst toy_post
          (redeem_args (record {
            signature = hex_g1 toy_blst sig;
            witness = hex_g1 toy_blst two;
            class = class;
            epoch = epoch;
          }))
          none).0
        ≡ exit 0 (line (bytes "Credential redeemed successfully")))
redeem_cmd-unblind_cmd-blind_cmd_example =
    redeem_cmd-unblind_cmd-blind_cmd toy_platform toy_blst toy_IsGroup toy_IsField toy_IsEncoding
      toy_IsBytes toy_IsPairing toy_os toy_IsOs entropy (bytes "m") (bytes "/home")
      (hex_g1 toy_blst one) (hex_g1 toy_blst two) (bytes "7f") class none none none empty_state
      quiet quiet ProtocolRuns.entropy toy_service toy_result 9 toy_post entropy-IsEntropy refl refl
      printed issued refl opened admitted fresh live refl refl toy_post_answers

verify_cmd-issue_example :
    (verify_cmd toy_os toy_blst (verify_args (hex_g1 toy_blst one) toy_result) none).0
    ≡ exit 0 (line (bytes "DLEQ proof is valid"))
verify_cmd-issue_example =
    verify_cmd-issue toy_platform toy_blst toy_IsField toy_IsEncoding toy_IsBytes toy_os toy_IsGroup
      quiet ProtocolRuns.entropy one class toy_service toy_result none
      (client_of toy_os toy_blst empty_state) refl issued (ap (λ r. r.0) opened)

-- Flags that end a command, and the value of the last of two.
no_message :
    blind_cmd toy_os toy_blst entropy [] none
    ≡ (exit 1 (usage (bytes "Error: --message is required")), none)
unfolding blind_cmd with_parsed parse flag lookup insert Text_discrete blind_message_flag
no_message = refl

unknown_flag :
    (blind_cmd toy_os toy_blst entropy (bytes "-nope=1" ∷ []) none).0
    ≡ exit 2 (usage (bytes "flag"))
unfolding blind_cmd with_parsed parse flag lookup insert Text_discrete
unknown_flag = refl

asked_for_help : (blind_cmd toy_os toy_blst entropy (bytes "-h" ∷ []) none).0 ≡ exit 0 help
unfolding blind_cmd with_parsed parse flag lookup insert Text_discrete
asked_for_help = refl

-- a request stored by one process, looked up by the next
abbrev home_path : Text
home_path = state_path toy_os (bytes "/home")

saved :
    (store toy_blst (disk_of toy_os home_path none) (bytes "7f") two (bytes "m") two []).0
    ≡ ok (bytes "7f")
unfolding store save encode insert
saved = refl

plain : is_ascii (bytes "7f") ≡ true
unfolding is_ascii
plain = refl

new_state-store_example :
    (t : ClientState) × ((new_state_with_dir toy_os
        (bytes "/home")
        (save toy_os home_path
          (store toy_blst (disk_of toy_os home_path none) (bytes "7f") two (bytes "m") two []).1
          none).1).0
      ≡ ok (record { path = home_path; requests = t }))
    × (get (bytes "7f") t ≡ (
        if bytes "7f" == bytes "7f"
        then ok (pending toy_blst two (bytes "m") two)
        else get (bytes "7f") []))
new_state-store_example =
    new_state-store toy_os toy_IsOs toy_blst (bytes "/home") (bytes "7f") two (bytes "m") two []
      none (bytes "7f") plain saved refl
