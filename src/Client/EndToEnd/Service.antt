-- ===== src/Client/EndToEnd/Service.antt =====
-- The client of the end-to-end test (cmd/testclient/main.go) against the credential service and its
-- handlers (internal/service/credentials.go, internal/api/handlers.go).
use blindvault.Base.{ℕ, ◌≡◌, sym, ◌∙◌, ap, Bool, true, false, none, some, Text, bytes, arith}
use blindvault.Apperr.{Result, ok, err}
use blindvault.Api.Handlers.Consume.{redemption, consume_response, consume_error}
use blindvault.Api.Response.{respond_err, respond_json}
use blindvault.Client.{blind_point, redeem_request}
use blindvault.Client.EndToEnd.{
  Endpoint, IssueReply, test_class, test_message, unblind_reply, replay, consume_and_replay, main,
}
use blindvault.Client.Protocol.{blind_point-IsBlinded, read_blinded-hex_g1, issue-master_seed}
use blindvault.Context.{Context, Call, check_context}
use blindvault.Crypto.Blst.{Blst, Platform}
use blindvault.Crypto.Derive.{derive_signing_key}
use blindvault.Crypto.Engine.{unblind_signature}
use blindvault.Crypto.Engine.RoundTrip.{deserialize_g1-compress1, mult1-mult1_inverse}
use blindvault.Crypto.Laws.{IsEncoding, IsField, IsGroup, IsPairing}
use blindvault.Crypto.Nullifier.{compute_nullifier}
use blindvault.Crypto.Scalar.{is_zero, deserialize_g1}
use blindvault.Service.Config.{is_epoch_supported}
use blindvault.Service.Config.Seed.{master_seed}
use blindvault.Service.Credentials.{IssueResult, ConsumeResult, Service, record_nullifier_store}
use blindvault.Service.Credentials.Consume.{Redemption, admit, consume, redeem, spend, settle}
use blindvault.Service.Credentials.Consume.Outcome.{nullifier_of}
use blindvault.Service.Credentials.Consume.Acceptance.{
  credential, read_points-hex_g1, consume_credential, consume_credential-store,
}
use blindvault.Service.Credentials.Consume.Replay.{consume_twice}
use blindvault.Service.Credentials.Issue.{issue, issue_result}
use blindvault.Service.Credentials.Issue.Correctness.{issue-IsIssued}
use blindvault.Service.Credentials.Points.{IsBytes, hex_g1, decode-hex_g1}
use blindvault.Validation.Hex.{decode_prefix, decode_prefix-decode_string}
use blindvault.Storage.{NullifierStore, RevocationStore}
use blindvault.Storage.Contract.{IsNullifierSet}

-- The status that the consume handler answers with.
abbrev pub consume_status : Result ConsumeResult → ℕ
consume_status (err e) = (consume_error e).status
consume_status (ok r) = (consume_response r.status r.error).status

-- What a client gets of the result of Issue.
abbrev pub issue_reply : Result IssueResult → IssueReply
issue_reply (err e) = record { status = (respond_err e).status; body = err e }
issue_reply (ok result) = record { status = 200; body = ok result }

module _ (P : Platform) (B : Blst) (N : NullifierStore) (V : RevocationStore) where
  -- The service behind its handlers, at one time and with contexts of the requests.
  abbrev pub service_endpoint : Context → ℕ → Result Text → Endpoint
  service_endpoint ctx now random = record {
    State = Service P N V;
    issue = λ blinded class s.
        let (result, s') = issue P B ctx random blinded class s in (ok (issue_reply result), s');
    consume = λ req s.
        let (result, s') = consume P B ctx now (redemption req) s in
        (ok (consume_status result), s');
  }

module _ (P : Platform) (B : Blst) (G : IsGroup B) (F : IsField B) (E : IsEncoding B)
    (W : IsBytes B) where
  module _ {N : NullifierStore} {V : RevocationStore} where
    -- What the client has unblinded, when the server answered the request for its point.
    record IsUnblinded (point : B.G1) (r : B.Scalar) (class : Text) (s : Service P N V)
        (result : IssueResult) : Type 0 where
      sk : B.Scalar
      enclave : P.Enclave
      opened : (master_seed P s.config).0 ≡ ok enclave
      key : derive_signing_key P B (some enclave) s.config.active_epoch class ≡ ok sk
      unblinded :
          unblind_reply B r (ok (issue_reply (ok result)))
          ≡ ok (B.mult1 point sk, s.config.active_epoch)

    issue-IsUnblinded :
        (ctx : Context) (random : Result Text) (point : B.G1) (r : B.Scalar) (class : Text)
        (s : Service P N V) (result : IssueResult)
        → is_zero B r ≡ false
        → B.in_g1 point ≡ true
        → (issue P B ctx random (hex_g1 B (B.mult1 point r)) class s).0 ≡ ok result
        → IsUnblinded point r class s result
    unfolding unblind_reply issue_result unblind_signature
    issue-IsUnblinded ctx random point r class s result nonzero member issued =
        let i =
          issue-IsIssued P B G ctx random (hex_g1 B (B.mult1 point r)) class s result issued in
        let blinded : B.G1 = B.mult1 point r in
        let inside = E.in_g1-mult1 point r member in
        let same = read_blinded-hex_g1 P B E W ctx blinded i.blinded class inside i.read in
        let sig : B.G1 = B.mult1 blinded i.sk in
        let unblinds : B.mult1 sig (B.scalar_inverse r) ≡ B.mult1 point i.sk =
          mult1-mult1_inverse B G point r i.sk member nonzero in
        let text : result.blind_signature ≡ hex_g1 B sig =
          ap (λ x. x.blind_signature) i.response ∙ ap (λ p. hex_g1 B (B.mult1 p i.sk)) same in
        record {
          sk = i.sk;
          enclave = i.enclave;
          opened = i.opened;
          key = i.key;
          unblinded = ground (
            arith,
            ap (λ x. x.key_epoch) i.response,
            unblinds,
            ap (λ x. deserialize_g1 B (decode_prefix x)) text
                ∙ ap (deserialize_g1 B) (
                    decode_prefix-decode_string (hex_g1 B sig) (B.compress1 sig)
                      (decode-hex_g1 B W sig))
                ∙ deserialize_g1-compress1 B E sig (E.in_g1-mult1 blinded i.sk inside),
          );
        }

    -- A redemption changes nothing that admission looks at.
    pub admit-consume :
        (ctx : Context) (now : ℕ) (r : Redemption) (class epoch : Text) (s : Service P N V)
        → admit P B now class epoch (consume P B ctx now r s).1 ≡ admit P B now class epoch s
    unfolding admit consume redeem spend settle master_seed is_epoch_supported
        record_nullifier_store
    admit-consume ctx now r class epoch s = ground arith

-- The surroundings of the nullifier store in one request.
abbrev call : Context → ℕ → Call
call ctx now = record { done = check_context ctx 1; now = now }

module _ (P : Platform) (B : Blst) (G : IsGroup B) (F : IsField B) (E : IsEncoding B)
    (W : IsBytes B) (Q : IsPairing B) (N : NullifierStore) (V : RevocationStore)
    (S : IsNullifierSet N) (ctx : Context) (now : ℕ) (server_random : Result Text) where
  -- The first request is accepted and the second is a duplicate.
  consume_and_replay-credential :
      (witness : B.G1) (sk : B.Scalar) (class epoch : Text) (enclave : P.Enclave)
      (s : Service P N V) (b : Bool)
      → admit P B now class epoch s ≡ ok none
      → (master_seed P s.config).0 ≡ ok enclave
      → derive_signing_key P B (some enclave) epoch class ≡ ok sk
      → check_context ctx 0 ≡ none
      → B.in_g1 witness ≡ true
      → let k = compute_nullifier P B epoch class (B.mult1 witness sk) in
        (N.check_and_store (call ctx now) k s.store).0 ≡ ok true
        → (N.check_and_store
            (call ctx now)
            k
            (consume P B ctx now (credential B witness sk class epoch) s).1.store).0
          ≡ ok b
        → (consume_and_replay B
            (service_endpoint P B N V ctx now server_random)
            (redeem_request B (B.mult1 witness sk) witness class epoch)
            s).0
          ≡ ok tt
  unfolding consume_and_replay replay redemption redeem_request nullifier_of consume_response
      respond_json
  consume_and_replay-credential witness sk class epoch enclave s b admitted seed key live member new
        answers =
      let request = credential B witness sk class epoch in
      let first =
        consume_credential P B E W Q ctx now witness sk class epoch enclave s admitted seed key live
          member new in
      let named : nullifier_of P B request
          ≡ some (compute_nullifier P B epoch class (B.mult1 witness sk)) =
        ground (
          arith,
          read_points-hex_g1 P B E W Q (B.mult1 witness sk) witness
              (E.in_g1-mult1 witness sk member) member,
        ) in
      let second =
        consume_twice P B S ctx ctx now now request s b _ (ground (arith, first)) named
          (admit-consume P B G F E W ctx now request class epoch s ∙ admitted) live answers in
      ground (arith, first, second)

  -- The end-to-end test passes against every service that answers its request for a credential,
  -- admits the class and the active epoch, takes the nullifier as new and answers the second
  -- request: the first redemption gets 200, and the same one again gets 409.
  pub main-service :
      (random : Result Text) (point : B.G1) (r : B.Scalar) (blinded : B.G1) (s : Service P N V)
      (result : IssueResult)
      → blind_point B (some (bytes "BCIS-V1-MESSAGE")) random test_message ≡ ok (point, r, blinded)
      → (issue P B ctx server_random (hex_g1 B blinded) test_class s).0 ≡ ok result
      → let t = (issue P B ctx server_random (hex_g1 B blinded) test_class s).1 in
        admit P B now test_class s.config.active_epoch t ≡ ok none
        → check_context ctx 0 ≡ none
        → ((k : Text) → (N.check_and_store (call ctx now) k t.store).0 ≡ ok true)
        → ((k : Text)
            → (b : Bool) × ((N.check_and_store
                  (call ctx now)
                  k
                  (N.check_and_store (call ctx now) k t.store).1).0
                ≡ ok b))
        → (main B (service_endpoint P B N V ctx now server_random) random s).0 ≡ ok tt
  unfolding main
  main-service random point r blinded s result blinds issued admitted live new answers =
      let (nonzero, product, member) =
        blind_point-IsBlinded B F E (some (bytes "BCIS-V1-MESSAGE")) random test_message point r
          blinded blinds in
      let i =
        issue-IsUnblinded P B G F E W ctx server_random point r test_class s result nonzero member (
          ap (λ p. (issue P B ctx server_random (hex_g1 B p) test_class s).0) (sym product)
          ∙ issued) in
      let t = (issue P B ctx server_random (hex_g1 B blinded) test_class s).1 in
      let epoch = s.config.active_epoch in
      let k = compute_nullifier P B epoch test_class (B.mult1 point i.sk) in
      let (b, answered) = answers k in
      let seed =
        issue-master_seed P B G F E W ctx server_random (hex_g1 B blinded) test_class s
        ∙ i.opened in
      let left =
        consume_credential-store P B E W Q ctx now point i.sk test_class epoch i.enclave t admitted
          seed i.key live member in
      let redeemed =
        consume_and_replay-credential point i.sk test_class epoch i.enclave t b admitted seed i.key
          live member (new k)
          (ap (λ x. (N.check_and_store (call ctx now) k x).0) left ∙ answered) in
      ground (arith, blinds, issued, i.unblinded, redeemed)
