-- ===== src/Api/Routes.antt =====
-- The routes of internal/api/server.go, each with its chain of middlewares.
pub mod Guards
pub mod ConsumeRoute
pub mod IssueRoute
pub mod RevokeRoute
use blindvault.Base.{ℕ, Option, none, some, Text, bytes, Map}
use blindvault.Apperr.{app, internal}
use blindvault.Api.Demo.{handle_store_credential, handle_retrieve_credential}
use blindvault.Api.Handlers.{handle_health, handle_metrics}
use blindvault.Api.Handlers.Admin.{handle_admin_revoke, handle_admin_unrevoke, handle_admin_list}
use blindvault.Api.Handlers.Consume.{handle_consume}
use blindvault.Api.Handlers.Issue.{handle_issue}
use blindvault.Api.Middleware.{Handler, require_role, body_limit, rate_limit, logged}
use blindvault.Api.Response.{Response, respond_err}
use blindvault.Api.Server.{Libraries, Request, Server}
use blindvault.Storage.{NullifierStore, RevocationStore}

-- the patterns that NewServer registers
pub data Route : Type 0 where
  issue consume admin_revoke admin_unrevoke admin_list health metrics : Route
  demo_store demo_retrieve : Route

-- 1<<20
abbrev pub max_body : ℕ
max_body = 1048576

module _ {L : Libraries} {N : NullifierStore} {V : RevocationStore} where
  -- A call through a nil pointer panics, and RecoveryMiddleware answers.
  abbrev recovered : Handler L N V
  recovered r s = (respond_err (app internal (bytes "internal server error")), s)

  -- a method value of the server that goes through s.revocationStore
  unfoldable pub on_revocations : (V.State → Handler L N V) → Handler L N V
  on_revocations h r s = elim s.service.revocation_store [ some v ↦ h v r s | none ↦ recovered r s ]

  -- a method value of the server that goes through s.demoStore
  unfoldable pub on_demo : (Map Text → Handler L N V) → Handler L N V
  on_demo h r s = elim s.demo_store [ some store ↦ h store r s | none ↦ recovered r s ]

  -- Logger -> RateLimit -> BodyLimit -> handler
  abbrev pub guarded : Handler L N V → Handler L N V
  guarded h = logged (rate_limit (body_limit max_body h))

  -- the handler that the mux of NewServer holds for a pattern
  unfoldable pub serve : Route → Handler L N V
  unfolding on_revocations on_demo
  serve issue = guarded (require_role (bytes "issuer") handle_issue)
  serve consume = guarded handle_consume
  serve admin_revoke = guarded (require_role (bytes "admin") (on_revocations handle_admin_revoke))
  serve admin_unrevoke =
      guarded (require_role (bytes "admin") (on_revocations handle_admin_unrevoke))
  serve admin_list = guarded (require_role (bytes "admin") (on_revocations handle_admin_list))
  serve health = handle_health
  serve metrics = handle_metrics
  serve demo_store = logged (on_demo handle_store_credential)
  serve demo_retrieve = logged (on_demo handle_retrieve_credential)
