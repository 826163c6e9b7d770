-- ===== src/Commands/Program.antt =====
-- main of cmd/bv/main.go: the subcommands.
use blindvault.Base.{List, [], ◌∷◌, Text, bytes, ◌==◌, if◌then◌else◌}
use blindvault.Apperr.{Result}
use blindvault.Api.Types.{ConsumeRequest}
use blindvault.Client.{Reply}
use blindvault.Client.Files.{Os}
use blindvault.Commands.{Outcome, exit, line, usage}
use blindvault.Commands.Blind.{Entropy, blind_cmd}
use blindvault.Commands.Redeem.{redeem_cmd}
use blindvault.Commands.Unblind.{unblind_cmd}
use blindvault.Commands.Verify.{verify_cmd}
use blindvault.Crypto.Blst.{Blst}

-- What every command may use: the random bytes and the output, and the POST to a server.
pub record Surroundings : Type 0 where
  pub entropy : Entropy
  pub post : Text → ConsumeRequest → Result Reply

module _ (O : Os) (B : Blst) where
  -- the switch of main; the message of Go also gives the unknown name
  unfoldable pub dispatch : Surroundings → Text → List Text → O.Fs → Outcome × O.Fs
  dispatch n name args fs =
      if name == bytes "blind"
      then blind_cmd O B n.entropy args fs
      else if name == bytes "verify"
      then verify_cmd O B args fs
      else if name == bytes "unblind"
      then unblind_cmd O B args fs
      else if name == bytes "redeem"
      then redeem_cmd O B n.post args fs
      else (exit 1 (line (bytes "Unknown command")), fs)

  -- main, over os.Args, which starts with the name of the program
  unfoldable pub main : Surroundings → List Text → O.Fs → Outcome × O.Fs
  unfolding dispatch
  main n [] fs = (exit 1 (usage (bytes "Usage: bv <command> [options]")), fs)
  main n (program ∷ []) fs = (exit 1 (usage (bytes "Usage: bv <command> [options]")), fs)
  main n (program ∷ (name ∷ args)) fs = dispatch n name args fs
