-- ===== src/Api/Handlers.antt =====
-- internal/api/handlers.go
pub mod Issue
pub mod Consume
pub mod Admin
use blindvault.Base.{Option, none, some, Text, bytes}
use blindvault.Apperr.{GoError, app_wrap, unavailable, Result}
use blindvault.Api.Response.{Response, respond_err, respond_json, status_body, metrics_body}
use blindvault.Api.Server.{Libraries, Request, Server}
use blindvault.Context.{Call, check_context}
use blindvault.Service.Credentials.{ping}
use blindvault.Storage.{NullifierStore, RevocationStore}

module _ {L : Libraries} {N : NullifierStore} {V : RevocationStore} where
  -- Server.handleHealth
  unfoldable pub handle_health : Request → Server L N V → Response × Server L N V
  handle_health r s =
      elim (ping (record { done = check_context r.context 0; now = r.now })
        (record { done = check_context r.context 1; now = r.now }) s.service) [
          | some e ↦ (respond_err (app_wrap unavailable (bytes "storage unhealthy") e), s)
          | none ↦ (respond_json 200 (status_body (bytes "ok")), s)
        ]

  -- Server.metricsHandler
  unfoldable pub handle_metrics : Request → Server L N V → Response × Server L N V
  handle_metrics r s = (respond_json 200 metrics_body, s)
