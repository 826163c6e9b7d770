-- ===== src/Api/Routes/RevokeRoute.antt =====
-- POST /v1/admin/revoke against POST /v1/credential/consume (internal/api/handlers.go).
use blindvault.Base.{
  ◌≡◌, refl, sym, ◌≢◌, ℕ, ◌≤◌, Bool, true, false, Option, none, some, Text, bytes, arith,
}
use blindvault.Apperr.{GoError, Result, ok, err, app, app_wrap, invalid_argument, internal}
use blindvault.Api.Handlers.Admin.{handle_admin_revoke}
use blindvault.Api.Handlers.Consume.{redemption, consumed, consume_response, handle_consume}
use blindvault.Api.Response.{respond_json}
use blindvault.Api.Routes.ConsumeRoute.{respond_err-status, consume_error-status}
use blindvault.Api.Server.{Libraries, Request, Server, count}
use blindvault.Api.Types.{AdminRevokeRequest, ConsumeRequest, revoke_fields, consume_fields}
use blindvault.Auth.{Claims}
use blindvault.Crypto.Blst.{Blst, Platform}
use blindvault.Service.Credentials.{
  Service, ConsumeStatus, ConsumeResult, accepted, duplicate, revoked,
}
use blindvault.Service.Credentials.Consume.{admit, consume}
use blindvault.Service.Credentials.Consume.Outcome.{was_accepted, consume-IsVerified}
use blindvault.Storage.{NullifierStore, RevocationStore, RevocationEntry}
use blindvault.Storage.Contract.{IsRevoking, is_current}

module _ (P : Platform) (B : Blst) {N : NullifierStore} {V : RevocationStore} where
  -- A request that was admitted got the answer from the revocation store that its pair is free.
  admit-is_revoked :
      (now : ℕ) (class epoch : Text) (s : Service P N V) (v : V.State)
      → s.revocation_store ≡ some v
      → admit P B now class epoch s ≡ ok none
      → (entry : Option RevocationEntry) × (V.is_revoked now class epoch v ≡ ok (false, entry))
  unfolding admit
  admit-is_revoked now class epoch s v held h = cases (V.is_revoked now class epoch v) refl
    where
      cases :
          (a : Result (Bool × Option RevocationEntry))
          → V.is_revoked now class epoch v ≡ a
          → (entry : Option RevocationEntry) × (V.is_revoked now class epoch v ≡ ok (false, entry))
      cases (err e) p = absurd (ground arith)
      cases (ok (true, entry)) p = absurd (ground arith)
      cases (ok (false, entry)) p = (entry, p)

module _ {L : Libraries} {N : NullifierStore} {V : RevocationStore} where
  accepted_of_200 :
      (req : ConsumeRequest) (s : Server L N V)
      (out : Result ConsumeResult × Service L.platform N V)
      → (consumed req s out).0.status ≡ 200
      → was_accepted out.0 ≡ true
  unfolding consumed consume_response respond_json count
  accepted_of_200 req s (err e, t) h = absurd (consume_error-status e h)
  accepted_of_200 req s (ok result, t) h = cases result.status refl
    where
      cases : (a : ConsumeStatus) → result.status ≡ a → was_accepted (ok result) ≡ true
      cases accepted p = ground arith
      cases duplicate p = ground arith
      cases revoked p = ground arith

  -- A consume request is answered with 200 only if the service accepted it.
  handle_consume-accepted :
      (r : Request) (req : ConsumeRequest) (s : Server L N V)
      → L.decoders.consume r.body ≡ ok req
      → (handle_consume r s).0.status ≡ 200
      → was_accepted (consume L.platform L.blst r.context r.now (redemption req) s.service).0 ≡ true
  unfolding handle_consume count
  handle_consume-accepted r req s decoded h =
      cases (L.validator.struct_errors r.now (consume_fields req)) refl
    where
      cases :
          (e : Option GoError)
          → L.validator.struct_errors r.now (consume_fields req) ≡ e
          → was_accepted (consume L.platform L.blst r.context r.now (redemption req) s.service).0
            ≡ true
      cases (some e) p =
          absurd
            (ground (arith, respond_err-status (app invalid_argument (bytes "invalid request"))))
      cases none p =
          accepted_of_200 req s
            (consume L.platform L.blst r.context r.now (redemption req) s.service) (ground arith)

  -- What a revocation that was answered with 200 did.
  record IsTaken (now : ℕ) (order : AdminRevokeRequest) (v : V.State) (s : Server L N V)
      : Type 0 where
    by : Text
    done :
        (V.revoke_class now order.credential_class order.key_epoch order.reason by
          order.revoked_until v).0
        ≡ none
    stored :
        s.service.revocation_store
        ≡ some
            (V.revoke_class now order.credential_class order.key_epoch order.reason by
              order.revoked_until v).1

  handle_admin_revoke-IsTaken :
      (v : V.State) (r : Request) (order : AdminRevokeRequest) (s : Server L N V)
      → L.decoders.revoke r.body ≡ ok order
      → (handle_admin_revoke v r s).0.status ≡ 200
      → IsTaken r.now order v (handle_admin_revoke v r s).1
  unfolding handle_admin_revoke count respond_json
  handle_admin_revoke-IsTaken v r order s decoded h = claims_cases r.claims refl
    where
      taken : Text → Option GoError × V.State
      taken by =
          V.revoke_class r.now order.credential_class order.key_epoch order.reason by
            order.revoked_until v

      done_cases :
          (claims : Claims) (d : Option GoError)
          → r.claims ≡ some claims
          → L.validator.struct_errors r.now (revoke_fields order) ≡ none
          → (taken claims.subject).0 ≡ d
          → IsTaken r.now order v (handle_admin_revoke v r s).1
      done_cases claims (some e) p q d = absurd (
          ground
            (arith, respond_err-status (app_wrap invalid_argument (bytes "revocation failed") e)))
      done_cases claims none p q d = record { by = claims.subject; done = d; stored = ground arith }

      valid_cases :
          (claims : Claims) (e : Option GoError)
          → r.claims ≡ some claims
          → L.validator.struct_errors r.now (revoke_fields order) ≡ e
          → IsTaken r.now order v (handle_admin_revoke v r s).1
      valid_cases claims (some e) p q = absurd (
          ground
            (arith, respond_err-status (app_wrap invalid_argument (bytes "invalid request") e)))
      valid_cases claims none p q = done_cases claims (taken claims.subject).0 p q refl

      claims_cases :
          (c : Option Claims) → r.claims ≡ c → IsTaken r.now order v (handle_admin_revoke v r s).1
      claims_cases none p =
          absurd (
            ground (arith, respond_err-status (app internal (bytes "claims missing from context"))))
      claims_cases (some claims) p =
          valid_cases claims (L.validator.struct_errors r.now (revoke_fields order)) p refl

  -- After a revocation by the admin handler that was answered with 200, no request to the consume
  -- handler for its class and epoch is answered with 200 while the revocation is in force by at
  -- least a millisecond and the revocations of the server stay as they are, over any revocation
  -- store that keeps the contract.
  pub revoke_blocks :
      (K : IsRevoking V.revoke_class V.is_revoked) (v : V.State) (admin r : Request)
      (order : AdminRevokeRequest) (req : ConsumeRequest) (s t : Server L N V)
      → L.decoders.revoke admin.body ≡ ok order
      → L.decoders.consume r.body ≡ ok req
      → req.credential_class ≡ order.credential_class
      → req.key_epoch ≡ order.key_epoch
      → (handle_admin_revoke v admin s).0.status ≡ 200
      → t.service.revocation_store ≡ (handle_admin_revoke v admin s).1.service.revocation_store
      → admin.now ≤ r.now
      → is_current r.now order.revoked_until ≡ true
      → (handle_consume r t).0.status ≢ 200
  unfolding redemption
  revoke_blocks K v admin r order req s t read_order read_req class epoch taken same after current
        answered =
      let i = handle_admin_revoke-IsTaken v admin order s read_order taken in
      let accepted = handle_consume-accepted r req t read_req answered in
      let v' : V.State =
        (V.revoke_class admin.now order.credential_class order.key_epoch order.reason i.by
          order.revoked_until v).1 in
      let held : t.service.revocation_store ≡ some v' = ground (arith, same, i.stored) in
      let passed =
        (consume-IsVerified L.platform L.blst r.context r.now (redemption req) t.service
          accepted).admitted in
      let admitted : admit L.platform L.blst r.now order.credential_class order.key_epoch t.service
          ≡ ok none =
        rw (sym class, sym epoch) passed in
      let (entry, free) =
        admit-is_revoked L.platform L.blst r.now order.credential_class order.key_epoch t.service v'
          held admitted in
      K.blocked admin.now r.now order.credential_class order.key_epoch order.reason i.by
        order.revoked_until v entry after current i.done free
