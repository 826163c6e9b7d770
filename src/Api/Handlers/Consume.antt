-- ===== src/Api/Handlers/Consume.antt =====
-- Server.handleConsume (internal/api/handlers.go).
use blindvault.Base.{true, false, none, some, Text, bytes}
use blindvault.Apperr.{GoError, app, app_wrap, as_app, invalid_argument, internal, Result, ok, err}
use blindvault.Api.Response.{Response, respond_err, respond_json, consume_body}
use blindvault.Api.Server.{Libraries, Request, Server, count}
use blindvault.Api.Types.{ConsumeRequest, consume_fields}
use blindvault.Metrics.{consumption}
use blindvault.Service.Credentials.{
  Service, ConsumeStatus, ConsumeResult, accepted, duplicate, revoked,
}
use blindvault.Service.Credentials.Consume.{Redemption, consume}
use blindvault.Storage.{NullifierStore, RevocationStore}

-- the request that the handler passes to the service
unfoldable pub redemption : ConsumeRequest → Redemption
redemption req = record {
  signature = req.unblinded_signature;
  witness = req.witness;
  class = req.credential_class;
  epoch = req.key_epoch;
}

-- the error response of a failed Consume
unfoldable pub consume_error : GoError → Response
consume_error e = elim (as_app e) [
  | some aerr ↦ respond_err aerr
  | none ↦ respond_err (app_wrap internal (bytes "consume failed") e)
]

-- the switch on the status
unfoldable pub consume_response : ConsumeStatus → Text → Response
consume_response revoked text = respond_json 409 (consume_body false (bytes "credential revoked"))
consume_response duplicate text = respond_json 409 (consume_body false text)
consume_response accepted text = respond_json 200 (consume_body true (bytes ""))

-- the label of the metric
unfoldable pub status_label : ConsumeStatus → Text
status_label revoked = bytes "revoked"
status_label duplicate = bytes "duplicate"
status_label accepted = bytes "success"

module _ {L : Libraries} {N : NullifierStore} {V : RevocationStore} where
  -- what the handler makes of the result of Consume
  unfoldable pub consumed :
      ConsumeRequest
      → Server L N V
      → Result ConsumeResult × Service L.platform N V
      → Response × Server L N V
  unfolding count consume_error consume_response status_label
  consumed req s (err e, service') = (
    consume_error e,
    count (consumption (bytes "failure") req.credential_class req.key_epoch)
        (record s { service = service' }),
  )
  consumed req s (ok result, service') = (
    consume_response result.status result.error,
    count (consumption (status_label result.status) req.credential_class req.key_epoch)
        (record s { service = service' }),
  )

  -- the handler behind the decoding of the body
  unfoldable pub consume_request : Request → ConsumeRequest → Server L N V → Response × Server L N V
  unfolding consumed redemption
  consume_request r req s = elim (L.validator.struct_errors r.now (consume_fields req)) [
    | some e ↦ (
      respond_err (app invalid_argument (bytes "invalid request")),
      count (consumption (bytes "failure") req.credential_class req.key_epoch) s,
    )
    | none ↦ consumed req s (consume L.platform L.blst r.context r.now (redemption req) s.service)
  ]

  -- Server.handleConsume
  unfoldable pub handle_consume : Request → Server L N V → Response × Server L N V
  unfolding consume_request
  handle_consume r s = elim (L.decoders.consume r.body) [
    | err e ↦ (
      respond_err (app_wrap invalid_argument (bytes "invalid request") e),
      count (consumption (bytes "failure") (bytes "unknown") (bytes "unknown")) s,
    )
    | ok req ↦ consume_request r req s
  ]
