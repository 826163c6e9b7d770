-- ===== src/Client/EndToEnd.antt =====
-- cmd/testclient/main.go: the client of the end-to-end test, over the requests that it makes.
pub mod Service
use blindvault.Base.{ℕ, some, Text, bytes, nat_eq, if◌then◌else◌}
use blindvault.Apperr.{plain, Result, ok, err, ◌>>=◌}
use blindvault.Api.Types.{ConsumeRequest}
use blindvault.Client.{blind_point, redeem_request}
use blindvault.Crypto.Blst.{Blst}
use blindvault.Crypto.Engine.{unblind_signature}
use blindvault.Crypto.Scalar.{deserialize_g1}
use blindvault.Service.Credentials.{IssueResult}
use blindvault.Service.Credentials.Points.{hex_g1}
use blindvault.Validation.Hex.{decode_prefix}

-- The answer to the request for a credential: its status, and what decoding the body gives.
pub record IssueReply : Type 0 where
  pub status : ℕ
  pub body : Result IssueResult

-- A server as the client reaches it: the two requests, with the state that they change. An error
-- is one of the transport.
pub record Endpoint : Type 1 where
  pub State : Type 0
  pub issue : Text → Text → State → Result IssueReply × State
  pub consume : ConsumeRequest → State → Result ℕ × State

abbrev pub test_class : Text
test_class = bytes "e2e_test"

abbrev pub test_message : Text
test_message = bytes "docker-e2e-test"

-- a panic with a message; the messages of Go also give the status
abbrev panic : {A : Type 0} → Text → Result A
panic msg = err (plain msg)

module _ (B : Blst) where
  -- steps 3 and 4 behind the request: the unblinded signature and the epoch. The error of
  -- the hex decoding is dropped, with the bytes before it kept, and a nil point panics.
  unfoldable pub unblind_reply : B.Scalar → Result IssueReply → Result (B.G1 × Text)
  unblind_reply r answer = do
    reply ← answer
    body ← if nat_eq reply.status 200 then reply.body else panic (bytes "issue failed")
    sig ← deserialize_g1 B (decode_prefix body.blind_signature)
    unblinded ← unblind_signature B sig r
    ok (unblinded, body.key_epoch)

  module _ (e : Endpoint) where
    -- steps 7 and 8
    unfoldable pub replay : ConsumeRequest → e.State → Result (Unit {0}) × e.State
    replay req s =
        let (answer, s') = e.consume req s in
        (
          do
            status ← answer
            if nat_eq status 409 then ok tt else panic (bytes "replay should fail with 409"),
          s',
        )

    -- steps 6 to 8
    unfoldable pub consume_and_replay : ConsumeRequest → e.State → Result (Unit {0}) × e.State
    unfolding replay
    consume_and_replay req s =
        let (answer, s') = e.consume req s in
        elim answer [
          | err failure ↦ (err failure, s')
          | ok status ↦
              if nat_eq status 200 then replay req s' else (panic (bytes "consume failed"), s')
        ]

    -- main: an error stands for a panic; `random` is what rand.Read yields
    unfoldable pub main : Result Text → e.State → Result (Unit {0}) × e.State
    unfolding consume_and_replay unblind_reply
    main random s = elim (blind_point B (some (bytes "BCIS-V1-MESSAGE")) random test_message) [
      | err failure ↦ (err failure, s)
      | ok (point, r, blinded) ↦
          let (answer, s1) = e.issue (hex_g1 B blinded) test_class s in
          elim (unblind_reply r answer) [
            | err failure ↦ (err failure, s1)
            | ok (unblinded, epoch) ↦
                consume_and_replay (redeem_request B unblinded point test_class epoch) s1
          ]
    ]
