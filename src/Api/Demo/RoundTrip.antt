-- ===== src/Api/Demo/RoundTrip.antt =====
-- A stored ciphertext is retrieved by its ticket (internal/api/demo_store.go).
use blindvault.Base.{◌≡◌, false, some, Text, is_empty, Map, insert, lookup-insert, arith}
use blindvault.Apperr.{ok}
use blindvault.Api.Demo.{handle_store_credential, handle_retrieve_credential}
use blindvault.Api.Response.{respond_json, ciphertext_body}
use blindvault.Api.Server.{Libraries, Request, Server}
use blindvault.Storage.{NullifierStore, RevocationStore}

module _ {L : Libraries} {N : NullifierStore} {V : RevocationStore} where
  -- After a ciphertext that is not empty was stored, a request with the ticket that was handed out
  -- gets it back.
  pub retrieve-store :
      (store : Map Text) (r q : Request) (s : Server L N V) (ciphertext : Text)
      → L.decoders.demo r.body ≡ ok ciphertext
      → is_empty ciphertext ≡ false
      → q.query_ticket_id ≡ r.ticket_id
      → (after : Map Text) × ((handle_store_credential store r s).1.demo_store ≡ some after)
        × ((handle_retrieve_credential after q s).0 ≡ respond_json 200 (ciphertext_body ciphertext))
  unfolding handle_store_credential handle_retrieve_credential
  retrieve-store store r q s ciphertext decoded nonempty same = (
    insert r.ticket_id ciphertext store,
    ground arith,
    ground (arith, lookup-insert r.ticket_id r.ticket_id ciphertext store),
  )
