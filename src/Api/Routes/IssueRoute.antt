-- ===== src/Api/Routes/IssueRoute.antt =====
-- What POST /v1/credential/issue answers to a point that is none (internal/api/handlers.go,
-- internal/service/credentials.go).
use blindvault.Base.{ℕ, ◌≡◌, false, Option, none, Text, bytes, is_empty, arith}
use blindvault.Apperr.{GoError, Result, ok, err, internal, code_of, http_status, wrapped}
use blindvault.Api.Handlers.Issue.{issued, issue_request, handle_issue}
use blindvault.Api.Response.{respond_err}
use blindvault.Api.Server.{Libraries, Request, Server}
use blindvault.Api.Types.{IssueRequest, issue_fields}
use blindvault.Context.{check_context}
use blindvault.Crypto.Blst.{Blst, Platform}
use blindvault.Crypto.Scalar.{deserialize_g1}
use blindvault.Service.Credentials.Issue.{read_blinded, issue}
use blindvault.Storage.{NullifierStore, RevocationStore}
use blindvault.Validation.Hex.{decode_string}

deserialize_g1-code :
    (B : Blst) (b : Text) (e : GoError) → deserialize_g1 B b ≡ err e → code_of e ≡ internal
unfolding deserialize_g1 code_of
deserialize_g1-code B b e h = ground arith

-- The error of `read_blinded` at bytes that are no point has the code `internal`.
record IsInternal (B : Blst) (r : Result B.G1) : Type 0 where
  error : GoError
  fails : r ≡ err error
  code : code_of error ≡ internal

read_blinded-IsInternal :
    (P : Platform) (B : Blst) (ctx : ℕ → Option GoError) (blinded_hex class b : Text) (e : GoError)
    → is_empty class ≡ false
    → decode_string blinded_hex ≡ ok b
    → check_context ctx 0 ≡ none
    → deserialize_g1 B b ≡ err e
    → IsInternal B (read_blinded P B ctx blinded_hex class)
unfolding read_blinded code_of
read_blinded-IsInternal P B ctx blinded_hex class b e named decoded live invalid = record {
  error = wrapped (bytes "invalid blinded_message point") e;
  fails = ground arith;
  code = deserialize_g1-code B b e invalid;
}

module _ {L : Libraries} {N : NullifierStore} {V : RevocationStore} where
  -- A request that passes validation and is not cancelled, with a blinded message that is the hex
  -- form of no point of the group, is answered with status 500.
  pub handle_issue-invalid_point :
      (r : Request) (s : Server L N V) (req : IssueRequest) (b : Text) (e : GoError)
      → L.decoders.issue r.body ≡ ok req
      → L.validator.struct_errors r.now (issue_fields req) ≡ none
      → is_empty req.credential_class ≡ false
      → decode_string req.blinded_message ≡ ok b
      → check_context r.context 0 ≡ none
      → deserialize_g1 L.blst b ≡ err e
      → (handle_issue r s).0.status ≡ 500
  unfolding handle_issue issue_request issued issue respond_err http_status
  handle_issue-invalid_point r s req b e decoded valid named hex live invalid =
      let found =
        read_blinded-IsInternal L.platform L.blst r.context req.blinded_message req.credential_class
          b e named hex live invalid in
      ground (arith, found.fails, found.code)
