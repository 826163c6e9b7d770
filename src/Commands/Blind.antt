-- ===== src/Commands/Blind.antt =====
-- blindCmd (cmd/bv/blind.go).
use blindvault.Base.{
  ◌<◌, ◌≡◌, true, All, Option, none, some, List, [], ◌∷◌, Text, bytes, Map, is_empty, if◌then◌else◌,
}
use blindvault.Apperr.{GoError, Result, ok, err}
use blindvault.Client.{BlindResult}
use blindvault.Client.Files.{Os, generate_id, is_ascii}
use blindvault.Client.Process.{blind_saved}
use blindvault.Commands.{Outcome, exit, fail_error, blinded_json, usage, new_client}
use blindvault.Commands.Flags.{flag, with_flags, with_parsed}
use blindvault.Crypto.Blst.{Blst}
use blindvault.Validation.Hex.{encode_to_string}

-- What the run of a command finds: rand.Read for the blinding factor and for the id, the time as
-- decimal text, and the outcome of writing to the output.
pub record Entropy : Type 0 where
  pub scalar_random : Result Text
  pub id_random : Result Text
  pub time : Text
  pub written : Option GoError

-- What rand.Read and the formatting of a time promise: bytes, and decimal digits.
pub record IsEntropy (n : Entropy) : Type 0 where
  pub id_bytes : (b : Text) → n.id_random ≡ ok b → All (λ x. x < 256) b
  pub time_text : is_ascii n.time ≡ true

abbrev pub blind_flags : Map Text
blind_flags = with_flags (bytes "message" ∷ [])

module _ (O : Os) (B : Blst) where
  -- the output, and the outcome of encoding it
  unfoldable pub report_blind : Option GoError → Result (BlindResult B) → Outcome
  report_blind written (err e) = fail_error e
  report_blind (some e) (ok r) = fail_error e
  report_blind none (ok r) = exit 0 (
      blinded_json (encode_to_string (B.compress1 r.blinded))
        (encode_to_string (B.compress1 r.witness)) r.request_id)

  -- behind the parsed flags
  unfoldable pub blind_message_flag : Entropy → Text → Text → Text → O.Fs → Outcome × O.Fs
  unfolding report_blind
  blind_message_flag n msg url dst fs =
      if is_empty msg
      then (exit 1 (usage (bytes "Error: --message is required")), fs)
      else (let (client, opened) = new_client O url dst fs in
          elim client [
            | err e ↦ (fail_error e, opened)
            | ok c ↦
                let (result, fs') =
                  blind_saved O B c.dst n.scalar_random (generate_id n.id_random n.time) msg c.state
                    opened in
                (report_blind n.written result, fs')
          ])

  -- blindCmd
  unfoldable pub blind_cmd : Entropy → List Text → O.Fs → Outcome × O.Fs
  blind_cmd n args fs =
      with_parsed blind_flags args
        (λ flags fs.
          blind_message_flag n (flag flags (bytes "message")) (flag flags (bytes "server"))
            (flag flags (bytes "dst")) fs)
        fs
