-- ===== src/Client.antt =====
-- pkg/client/client.go: what a holder of credentials does, with the commands of cmd/bv that read
-- points from hex text.
pub mod State
pub mod Files
pub mod Process
pub mod Protocol
pub mod EndToEnd
use blindvault.Base.{ℕ, Bool, Option, none, some, Text, bytes, nat_eq, if◌then◌else◌}
use blindvault.Apperr.{GoError, plain, wrapped, Result, ok, err, ◌>>=◌}
use blindvault.Api.Types.{ConsumeRequest}
use blindvault.Client.State.{ClientState, Disk, get, store, delete}
use blindvault.Crypto.Blst.{Blst}
use blindvault.Crypto.Dleq.{DleqProof, dleq_verify}
use blindvault.Crypto.Engine.{hash_to_curve, blind_message, unblind_signature}
use blindvault.Crypto.Scalar.{deserialize_g1, new_random_scalar, scalar_from_bytes}
use blindvault.Service.Credentials.Points.{hex_g1}
use blindvault.Validation.Hex.{decode_string}

-- What the server answered: its status, and what decoding the body as one or the other type gives.
pub record Reply : Type 0 where
  pub status : ℕ
  pub valid : Result Bool
  pub error : Result Text

module _ (B : Blst) where
  -- BlindResult
  pub record BlindResult : Type 0 where
    pub blinded : B.G1
    pub witness : B.G1
    pub request_id : Text

  -- Client.Blind up to the blinded point: the point, the blinding factor and the blinded point
  unfoldable pub blind_point : Option Text → Result Text → Text → Result (B.G1 × B.Scalar × B.G1)
  blind_point dst random msg = do
    point ← hash_to_curve B msg dst
    r ← new_random_scalar B random
    blinded ← blind_message B point r
    ok (point, r, blinded)

  -- Client.Blind; `id` is what generateID yields
  unfoldable pub blind :
      Disk
      → Option Text
      → Result Text
      → Text
      → Text
      → ClientState
      → Result BlindResult × ClientState
  unfolding blind_point
  blind disk dst random id msg s = elim (blind_point dst random msg) [
    | err e ↦ (err e, s)
    | ok (point, r, blinded) ↦
        let (stored, s') = store B disk id r msg point s in
        elim stored [
          | err e ↦ (err e, s')
          | ok i ↦ (ok (record { blinded = blinded; witness = point; request_id = i }), s')
        ]
  ]

  -- Client.VerifyProof
  unfoldable pub verify_proof : DleqProof B → B.G1 → B.G1 → B.G2 → Bool
  verify_proof proof blinded sig pk = dleq_verify B proof blinded sig pk

  -- Client.Unblind; the error of Delete is dropped
  unfoldable pub unblind : Disk → Text → B.G1 → ClientState → Result B.G1 × ClientState
  unblind disk request_id blind_sig s = elim (get request_id s) [
    | err e ↦ (err e, s)
    | ok request ↦ elim (scalar_from_bytes B request.blinding_factor) [
      | err e ↦ (err e, s)
      | ok r ↦ elim (unblind_signature B blind_sig r) [
        | err e ↦ (err e, s)
        | ok unblinded ↦ (ok unblinded, (delete disk request_id s).1)
      ]
    ]
  ]

  -- a point from hex text, in unblindCmd and redeemCmd
  unfoldable pub read_point : Text → Result B.G1
  read_point text = do point_bytes ← decode_string text; deserialize_g1 B point_bytes

  -- the body that Client.Redeem posts
  unfoldable pub redeem_request : B.G1 → B.G1 → Text → Text → ConsumeRequest
  redeem_request sig witness class epoch = record {
    unblinded_signature = hex_g1 B sig;
    witness = hex_g1 B witness;
    credential_class = class;
    key_epoch = epoch;
  }

  already_redeemed : Result Text → Result Bool
  already_redeemed (err e) = err (plain (bytes "credential already redeemed: "))
  already_redeemed (ok text) = err (plain (bytes "credential already redeemed"))

  -- Client.Redeem; `post` is the POST to the server, with the decoding of its body. The message
  -- about the status of Go also gives the number.
  unfoldable pub redeem : (ConsumeRequest → Result Reply) → B.G1 → B.G1 → Text → Text → Result Bool
  unfolding already_redeemed
  redeem post sig witness class epoch = do
    reply ← post (redeem_request sig witness class epoch)
    if nat_eq reply.status 409
        then already_redeemed reply.error
        else if nat_eq reply.status 200
        then reply.valid
        else err (plain (bytes "unexpected status"))
