-- ===== src/Api/Handlers/Admin.antt =====
-- The handlers of the revocations (internal/api/handlers.go). The revocation store of the server is
-- that of the credential service; a server has one.
use blindvault.Base.{ℕ, Option, none, some, Text, bytes}
use blindvault.Apperr.{GoError, app, app_wrap, invalid_argument, internal, ok, err}
use blindvault.Api.Response.{Response, respond_err, respond_json, status_body, revocations_body}
use blindvault.Api.Server.{Libraries, Request, Server, count}
use blindvault.Api.Types.{AdminRevokeRequest, AdminUnrevokeRequest, revoke_fields, unrevoke_fields}
use blindvault.Metrics.{revocation, unrevocation}
use blindvault.Storage.{NullifierStore, RevocationStore}

-- the error of a handler whose request carries no claims
abbrev claims_missing : Response
claims_missing = respond_err (app internal (bytes "claims missing from context"))

-- the error of a body that cannot be decoded or is not valid
abbrev invalid_request : GoError → Response
invalid_request e = respond_err (app_wrap invalid_argument (bytes "invalid request") e)

module _ {L : Libraries} {N : NullifierStore} {V : RevocationStore} where
  -- the server with other revocations
  abbrev pub with_revocations : V.State → Server L N V → Server L N V
  with_revocations v s = record s { service = record s.service { revocation_store = some v } }

  revoke_done : Text → Option GoError → Server L N V → Response × Server L N V
  unfolding count
  revoke_done class (some e) s = (
    respond_err (app_wrap invalid_argument (bytes "revocation failed") e),
    count (revocation (bytes "failure") class) s,
  )
  revoke_done class none s = (
    respond_json 200 (status_body (bytes "revoked")),
    count (revocation (bytes "success") class) s,
  )

  revoke_request : ℕ → Text → AdminRevokeRequest → V.State → Server L N V → Response × Server L N V
  unfolding revoke_done
  revoke_request now admin_id req v s = elim (L.validator.struct_errors now (revoke_fields req)) [
    | some e ↦ (invalid_request e, s)
    | none ↦
        let (done, v') =
          V.revoke_class now req.credential_class req.key_epoch req.reason admin_id
            req.revoked_until v in
        revoke_done req.credential_class done (with_revocations v' s)
  ]

  unrevoke_done : Text → Option GoError → Server L N V → Response × Server L N V
  unfolding count
  unrevoke_done class (some e) s = (
    respond_err (app_wrap invalid_argument (bytes "unrevoke failed") e),
    count (unrevocation (bytes "failure") class) s,
  )
  unrevoke_done class none s = (
    respond_json 200 (status_body (bytes "unrevoked")),
    count (unrevocation (bytes "success") class) s,
  )

  unrevoke_request : ℕ → AdminUnrevokeRequest → V.State → Server L N V → Response × Server L N V
  unfolding unrevoke_done
  unrevoke_request now req v s = elim (L.validator.struct_errors now (unrevoke_fields req)) [
    | some e ↦ (invalid_request e, s)
    | none ↦
        let (done, v') = V.unrevoke_class now req.credential_class req.key_epoch v in
        unrevoke_done req.credential_class done (with_revocations v' s)
  ]

  -- Server.handleAdminRevoke, on the server's revocation store
  unfoldable pub handle_admin_revoke : V.State → Request → Server L N V → Response × Server L N V
  unfolding revoke_request
  handle_admin_revoke v r s = elim r.claims [
    | none ↦ (claims_missing, s)
    | some claims ↦ elim (L.decoders.revoke r.body) [
      | err e ↦ (invalid_request e, s)
      | ok req ↦ revoke_request r.now claims.subject req v s
    ]
  ]

  -- Server.handleAdminUnrevoke
  unfoldable pub handle_admin_unrevoke : V.State → Request → Server L N V → Response × Server L N V
  unfolding unrevoke_request
  handle_admin_unrevoke v r s = elim r.claims [
    | none ↦ (claims_missing, s)
    | some claims ↦ elim (L.decoders.unrevoke r.body) [
      | err e ↦ (invalid_request e, s)
      | ok req ↦ unrevoke_request r.now req v s
    ]
  ]

  -- Server.handleAdminListRevocations
  unfoldable pub handle_admin_list : V.State → Request → Server L N V → Response × Server L N V
  handle_admin_list v r s = elim (V.list_revocations r.now v) [
    | err e ↦ (respond_err (app_wrap invalid_argument (bytes "list failed") e), s)
    | ok entries ↦ (respond_json 200 (revocations_body entries), s)
  ]
