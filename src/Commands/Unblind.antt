-- ===== src/Commands/Unblind.antt =====
-- unblindCmd (cmd/bv/unblind.go).
use blindvault.Base.{List, [], ◌∷◌, ◌++◌, Text, bytes, Map, is_empty, ◌||◌, if◌then◌else◌}
use blindvault.Apperr.{Result, ok, err}
use blindvault.Client.Files.{Os}
use blindvault.Client.Process.{unblind_saved}
use blindvault.Commands.{Client, Outcome, exit, fail, fail_error, line, usage, new_client}
use blindvault.Commands.Flags.{flag, with_flags, with_parsed}
use blindvault.Commands.Points.{read_g1}
use blindvault.Crypto.Blst.{Blst}
use blindvault.Service.Credentials.Points.{hex_g1}

abbrev pub unblind_flags : Map Text
unblind_flags = with_flags (bytes "signature" ∷ (bytes "id" ∷ []))

module _ (O : Os) (B : Blst) where
  unfoldable pub report_unblind : Result B.G1 → Outcome
  report_unblind (err e) = fail_error e
  report_unblind (ok unblinded) =
      exit 0 (line (bytes "Unblinded signature: " ++ hex_g1 B unblinded))

  -- behind NewClient
  unfoldable pub unblind_with : Text → Text → Client → O.Fs → Outcome × O.Fs
  unfolding report_unblind
  unblind_with sig id client fs =
      elim (read_g1 B (bytes "Invalid signature hex") (bytes "Invalid signature point") sig) [
        | err e ↦ (fail e, fs)
        | ok point ↦
            let (result, fs') = unblind_saved O B id point client.state fs in
            (report_unblind result, fs')
      ]

  -- behind the parsed flags
  unfoldable pub unblind_texts : Text → Text → Text → Text → O.Fs → Outcome × O.Fs
  unblind_texts sig id url dst fs =
      if is_empty sig || is_empty id
      then (exit 1 (usage (bytes "Error: --signature and --id are required")), fs)
      else (let (client, fs') = new_client O url dst fs in
          elim client [ err e ↦ (fail_error e, fs') | ok c ↦ unblind_with sig id c fs' ])

  -- unblindCmd
  unfoldable pub unblind_cmd : List Text → O.Fs → Outcome × O.Fs
  unblind_cmd args fs =
      with_parsed unblind_flags args
        (λ flags fs.
          unblind_texts (flag flags (bytes "signature")) (flag flags (bytes "id"))
            (flag flags (bytes "server")) (flag flags (bytes "dst")) fs)
        fs
