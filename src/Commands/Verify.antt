-- ===== src/Commands/Verify.antt =====
-- verifyCmd (cmd/bv/verify.go).
pub mod Issued
use blindvault.Base.{Bool, List, [], ◌∷◌, Text, bytes, Map, is_empty, ◌||◌, if◌then◌else◌}
use blindvault.Apperr.{Result, ok, err}
use blindvault.Client.{verify_proof}
use blindvault.Client.Files.{Os}
use blindvault.Commands.{Client, Outcome, exit, fail, line, usage, nil_panic, new_client}
use blindvault.Commands.Flags.{flag, with_flags, with_parsed}
use blindvault.Commands.Points.{ProofTexts, ProofPoints, read_proof}
use blindvault.Crypto.Blst.{Blst}

-- the flags of the command
abbrev pub verify_flags : Map Text
verify_flags = with_flags (
    bytes "blinded"
    ∷ (bytes "signature"
        ∷ (bytes "public-key"
            ∷ (bytes "proof-r1"
                ∷ (bytes "proof-r2" ∷ (bytes "proof-s" ∷ (bytes "proof-c" ∷ [])))))))

unfoldable pub proof_texts : Map Text → ProofTexts
proof_texts flags = record {
  blinded = flag flags (bytes "blinded");
  signature = flag flags (bytes "signature");
  public_key = flag flags (bytes "public-key");
  r1 = flag flags (bytes "proof-r1");
  r2 = flag flags (bytes "proof-r2");
  s = flag flags (bytes "proof-s");
  c = flag flags (bytes "proof-c");
}

-- the test for an empty flag
unfoldable pub some_missing : ProofTexts → Bool
some_missing t =
    is_empty t.blinded
    || is_empty t.signature
    || is_empty t.public_key
    || is_empty t.r1
    || is_empty t.r2
    || is_empty t.s
    || is_empty t.c

module _ (O : Os) (B : Blst) where
  -- the end of the command. The error of NewClient is dropped, and a client that is nil is
  -- dereferenced.
  unfoldable pub report_proof : ProofPoints B → Result Client → Outcome
  report_proof p (err e) = exit 2 nil_panic
  report_proof p (ok client) =
      if verify_proof B p.proof p.blinded p.signature p.public_key
      then exit 0 (line (bytes "DLEQ proof is valid"))
      else exit 1 (line (bytes "DLEQ proof is invalid"))

  -- behind the parsed flags
  unfoldable pub verify_texts : ProofTexts → Text → Text → O.Fs → Outcome × O.Fs
  unfolding report_proof
  verify_texts t url dst fs =
      if some_missing t
      then (exit 1 (usage (bytes "Error: all flags are required")), fs)
      else elim (read_proof B t) [
        | err e ↦ (fail e, fs)
        | ok p ↦ let (client, fs') = new_client O url dst fs in (report_proof p client, fs')
      ]

  -- verifyCmd
  unfoldable pub verify_cmd : List Text → O.Fs → Outcome × O.Fs
  verify_cmd args fs =
      with_parsed verify_flags args
        (λ flags fs.
          verify_texts (proof_texts flags) (flag flags (bytes "server")) (flag flags (bytes "dst"))
            fs)
        fs
