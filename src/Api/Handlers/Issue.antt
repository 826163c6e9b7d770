-- ===== src/Api/Handlers/Issue.antt =====
-- Server.handleIssue (internal/api/handlers.go).
use blindvault.Base.{none, some, Text, bytes}
use blindvault.Apperr.{app_wrap, invalid_argument, Result, ok, err}
use blindvault.Api.Response.{Response, respond_err, respond_json, issue_body}
use blindvault.Api.Server.{Libraries, Request, Server, count}
use blindvault.Api.Types.{IssueRequest, issue_fields}
use blindvault.Metrics.{issuance}
use blindvault.Service.Credentials.{IssueResult, Service}
use blindvault.Service.Credentials.Issue.{issue}
use blindvault.Storage.{NullifierStore, RevocationStore}

module _ {L : Libraries} {N : NullifierStore} {V : RevocationStore} where
  -- what the handler makes of the result of Issue
  unfoldable pub issued :
      Text → Server L N V → Result IssueResult × Service L.platform N V → Response × Server L N V
  unfolding count
  issued class s (err e, service') =
      (respond_err e, count (issuance (bytes "failure") class) (record s { service = service' }))
  issued class s (ok result, service') = (
    respond_json 200 (issue_body result),
    count (issuance (bytes "success") class) (record s { service = service' }),
  )

  -- the handler behind the decoding of the body
  unfoldable pub issue_request : Request → IssueRequest → Server L N V → Response × Server L N V
  unfolding issued
  issue_request r req s = elim (L.validator.struct_errors r.now (issue_fields req)) [
    | some e ↦ (
      respond_err (app_wrap invalid_argument (bytes "invalid request") e),
      count (issuance (bytes "failure") req.credential_class) s,
    )
    | none ↦ issued req.credential_class s (
        issue L.platform L.blst r.context r.random req.blinded_message req.credential_class
          s.service)
  ]

  -- Server.handleIssue
  unfoldable pub handle_issue : Request → Server L N V → Response × Server L N V
  unfolding issue_request
  handle_issue r s = elim (L.decoders.issue r.body) [
    | err e ↦ (
      respond_err (app_wrap invalid_argument (bytes "invalid request") e),
      count (issuance (bytes "failure") (bytes "unknown")) s,
    )
    | ok req ↦ issue_request r req s
  ]
