-- ===== src/Commands/Redeem.antt =====
-- redeemCmd (cmd/bv/redeem.go).
use blindvault.Base.{
  Bool, true, false, List, [], ◌∷◌, Text, bytes, Map, is_empty, ◌||◌, if◌then◌else◌,
}
use blindvault.Apperr.{Result, ok, err, ◌>>=◌}
use blindvault.Api.Types.{ConsumeRequest}
use blindvault.Client.{Reply, redeem}
use blindvault.Client.Files.{Os}
use blindvault.Commands.{Client, Outcome, exit, fail, fail_error, line, usage, new_client}
use blindvault.Commands.Flags.{flag, with_flags, with_parsed}
use blindvault.Commands.Points.{read_g1}
use blindvault.Crypto.Blst.{Blst}

-- The flags of the command.
pub record RedeemTexts : Type 0 where
  pub signature : Text
  pub witness : Text
  pub class : Text
  pub epoch : Text

abbrev pub redeem_flags : Map Text
redeem_flags =
    with_flags (bytes "signature" ∷ (bytes "witness" ∷ (bytes "class" ∷ (bytes "epoch" ∷ []))))

unfoldable pub redeem_texts : Map Text → RedeemTexts
redeem_texts flags = record {
  signature = flag flags (bytes "signature");
  witness = flag flags (bytes "witness");
  class = flag flags (bytes "class");
  epoch = flag flags (bytes "epoch");
}

unfoldable pub report_redeem : Result Bool → Outcome
report_redeem (err e) = fail_error e
report_redeem (ok true) = exit 0 (line (bytes "Credential redeemed successfully"))
report_redeem (ok false) = exit 1 (line (bytes "Credential is invalid or already consumed"))

module _ (O : Os) (B : Blst) where
  -- the signature and the witness
  unfoldable pub redeem_points : RedeemTexts → Result (B.G1 × B.G1)
  redeem_points t = do
    sig ←
        read_g1 B (bytes "Error: invalid hex for signature") (bytes "Invalid signature") t.signature
    witness ← read_g1 B (bytes "Error: invalid hex for witness") (bytes "Invalid witness") t.witness
    ok (sig, witness)

  -- behind NewClient; `post` is the POST to a server
  unfoldable pub redeem_with :
      (Text → ConsumeRequest → Result Reply) → RedeemTexts → Client → Outcome
  unfolding report_redeem
  redeem_with post t client = elim (redeem_points t) [
    | err e ↦ fail e
    | ok (sig, witness) ↦
        report_redeem (redeem B (post client.server_url) sig witness t.class t.epoch)
  ]

  -- behind the parsed flags
  unfoldable pub redeem_given :
      (Text → ConsumeRequest → Result Reply) → RedeemTexts → Text → Text → O.Fs → Outcome × O.Fs
  redeem_given post t url dst fs =
      if is_empty t.signature || is_empty t.witness || is_empty t.class || is_empty t.epoch
      then (
        exit 1 (usage (bytes "Error: --signature, --witness, --class, and --epoch are required")),
        fs,
      )
      else (let (client, fs') = new_client O url dst fs in
          elim client [ err e ↦ (fail_error e, fs') | ok c ↦ (redeem_with post t c, fs') ])

  -- redeemCmd
  unfoldable pub redeem_cmd :
      (Text → ConsumeRequest → Result Reply) → List Text → O.Fs → Outcome × O.Fs
  redeem_cmd post args fs =
      with_parsed redeem_flags args
        (λ flags fs.
          redeem_given post (redeem_texts flags) (flag flags (bytes "server"))
            (flag flags (bytes "dst")) fs)
        fs
