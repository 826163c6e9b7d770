-- ===== src/Api/Demo.antt =====
-- internal/api/demo_store.go: ciphertexts by ticket.
pub mod RoundTrip
use blindvault.Base.{
  Bool, true, false, Option, none, some, Text, bytes, is_empty, Map, lookup, insert, if◌then◌else◌,
}
use blindvault.Apperr.{GoError, app, app_wrap, invalid_argument, not_found, Result, ok, err}
use blindvault.Api.Response.{Response, respond_err, respond_json, ticket_body, ciphertext_body}
use blindvault.Api.Server.{Libraries, Request, Server}
use blindvault.Storage.{NullifierStore, RevocationStore}

module _ {L : Libraries} {N : NullifierStore} {V : RevocationStore} where
  -- Server.handleStoreCredential; the ticket is what uuid.New yields for the request
  unfoldable pub handle_store_credential :
      Map Text → Request → Server L N V → Response × Server L N V
  handle_store_credential store r s = elim (L.decoders.demo r.body) [
    | err e ↦ (respond_err (app_wrap invalid_argument (bytes "invalid request") e), s)
    | ok ciphertext ↦
        if is_empty ciphertext
        then (respond_err (app invalid_argument (bytes "invalid request")), s)
        else (
          respond_json 200 (ticket_body r.ticket_id),
          record s { demo_store = some (insert r.ticket_id ciphertext store) },
        )
  ]

  -- Server.handleRetrieveCredential
  unfoldable pub handle_retrieve_credential :
      Map Text → Request → Server L N V → Response × Server L N V
  handle_retrieve_credential store r s = elim (lookup r.query_ticket_id store) [
    | none ↦ (respond_err (app not_found (bytes "ticket not found")), s)
    | some ciphertext ↦ (respond_json 200 (ciphertext_body ciphertext), s)
  ]
