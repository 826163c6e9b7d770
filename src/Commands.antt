-- ===== src/Commands.antt =====
-- cmd/bv: the commands of the client, from the arguments to the exit status.
pub mod Flags
pub mod Points
pub mod Blind
pub mod Verify
pub mod Unblind
pub mod Redeem
pub mod Program
pub mod Session
use blindvault.Base.{ℕ, [], Text, bytes}
use blindvault.Apperr.{GoError, wrapped, Result, ok, err, map_err}
use blindvault.Client.Files.{Os, Opened, new_state}

-- What a command writes: a line or a JSON object to the output, a message to the error stream,
-- with or without the usage of the flags, or the trace of a nil dereference.
pub data Print : Type 0 where
  line : Text → Print
  blinded_json : Text → Text → Text → Print
  complaint : GoError → Print
  usage : Text → Print
  help nil_panic : Print

-- How a process ends.
pub record Outcome : Type 0 where
  pub status : ℕ
  pub print : Print

abbrev pub exit : ℕ → Print → Outcome
exit status print = record { status = status; print = print }

-- `fmt.Fprintf(os.Stderr, "...: %v\n", err); os.Exit(1)`
abbrev pub fail : GoError → Outcome
fail e = exit 1 (complaint e)

-- `fmt.Fprintf(os.Stderr, "Error: %v\n", err); os.Exit(1)`
abbrev pub fail_error : GoError → Outcome
fail_error e = fail (wrapped (bytes "Error") e)

-- the error of a call, printed behind a prefix
abbrev pub prefixed {ℓ} : {A : Type ℓ} → Text → Result A → Result A
prefixed prefix r = map_err (wrapped prefix) r

-- must: the prefix of the caller stands behind its own
unfoldable pub must {ℓ} : {A : Type ℓ} → Result A → Text → Result A
must r msg = map_err (λ e. wrapped (bytes "Error") (wrapped msg e)) r

-- Client, as NewClient makes it; the engine is Crypto.Engine, and the posts to the server are an
-- argument of Redeem
pub record Client : Type 0 where
  pub server_url : Text
  pub dst : Text
  pub state : Opened

module _ (O : Os) where
  -- NewClient, with the empty HomeDir that every command passes
  unfoldable pub new_client : Text → Text → O.Fs → Result Client × O.Fs
  new_client url dst fs =
      let (opened, fs') = new_state O [] fs in
      elim opened [
        | err e ↦ (err e, fs')
        | ok state ↦ (ok (record { server_url = url; dst = dst; state = state }), fs')
      ]
