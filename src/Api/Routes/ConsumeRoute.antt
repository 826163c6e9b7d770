-- ===== src/Api/Routes/ConsumeRoute.antt =====
-- What a client learns from POST /v1/credential/consume, and what it spends
-- (internal/api/handlers.go).
use blindvault.Base.{◌≡◌, ◌≢◌, refl, false, ◌||◌, Option, none, some, Text, bytes, arith, ◌==◌}
use blindvault.Apperr.{GoError, Result, ok, err, app, app_wrap, invalid_argument, internal, as_app}
use blindvault.Api.Handlers.Consume.{
  redemption, consume_error, consume_response, consumed, consume_request, handle_consume,
}
use blindvault.Api.Response.{Response, respond_err, respond_json, respond_err_hides}
use blindvault.Metrics.{consumption}
use blindvault.Api.Server.{Libraries, Request, Server, count}
use blindvault.Api.Types.{ConsumeRequest, consume_fields}
use blindvault.Service.Credentials.{
  Service, ConsumeStatus, ConsumeResult, accepted, duplicate, revoked,
}
use blindvault.Service.Credentials.Consume.{consume}
use blindvault.Service.Credentials.Consume.OneTime.{IsSpent, consume-IsSpent}
use blindvault.Service.Credentials.Consume.Outcome.{nullifier_of}
use blindvault.Storage.{NullifierStore, RevocationStore}
use blindvault.Storage.Contract.{IsNullifierSet}

pub respond_err-status : (e : GoError) → (respond_err e).status ≢ 200
respond_err-status e = ground (arith, respond_err_hides e)

pub consume_error-status : (e : GoError) → (consume_error e).status ≢ 200
unfolding consume_error
consume_error-status e = cases (as_app e) refl
  where
    cases : (a : Option GoError) → as_app e ≡ a → (consume_error e).status ≢ 200
    cases (some aerr) p = ground (arith, respond_err-status aerr)
    cases none p = ground (arith, respond_err-status (app_wrap internal (bytes "consume failed") e))

module _ {L : Libraries} {N : NullifierStore} {V : RevocationStore} (S : IsNullifierSet N) where
  -- What the status of an answer says: 200, that one nullifier was new and is spent now; any other
  -- status, that nothing was spent.
  pub record IsTruthful (s : Server L N V) (out : Response × Server L N V) : Type 0 where
    pub spent :
        out.0.status ≡ 200
        → (k : Text) × (S.holds s.service.store k ≡ false)
          × ((j : Text) → S.holds out.1.service.store j ≡ ((k == j) || S.holds s.service.store j))
    pub unspent :
        out.0.status ≢ 200 → (j : Text) → S.holds out.1.service.store j ≡ S.holds s.service.store j

  untouched :
      (s t : Server L N V) (response : Response)
      → response.status ≢ 200
      → t.service.store ≡ s.service.store
      → IsTruthful s (response, t)
  untouched s t response refused same = record {
    spent = λ h. absurd (refused h);
    unspent = λ h j. ground (arith, same);
  }

  by_status :
      {k : Option Text} {s : Server L N V} (req : ConsumeRequest) (result : ConsumeResult)
      (t : Service L.platform N V)
      → IsSpent L.platform L.blst S k s.service (ok result, t)
      → (a : ConsumeStatus) → result.status ≡ a
      → IsTruthful s (consumed req s (ok result, t))
  unfolding consumed count consume_response respond_json
  by_status req result t p accepted h = record {
    spent = λ _.
        let (n, known) = p.known (ground arith) in
        (n, ground (arith, known, p.fresh n), λ j. ground (arith, known, p.added j));
    unspent = λ other j. absurd (other (ground arith));
  }
  by_status req result t p duplicate h = record {
    spent = λ other. ground arith;
    unspent = λ _ j. ground (arith, p.added j);
  }
  by_status req result t p revoked h = record {
    spent = λ other. ground arith;
    unspent = λ _ j. ground (arith, p.added j);
  }

  consumed-IsTruthful :
      (r : Request) (req : ConsumeRequest) (s : Server L N V)
      → IsTruthful s
          (consumed req s (consume L.platform L.blst r.context r.now (redemption req) s.service))
  consumed-IsTruthful r req s =
      cases (consume L.platform L.blst r.context r.now (redemption req) s.service)
        (consume-IsSpent L.platform L.blst S r.context r.now (redemption req) s.service)
    where
      key : Option Text
      key = nullifier_of L.platform L.blst (redemption req)

      cases :
          (out : Result ConsumeResult × Service L.platform N V)
          → IsSpent L.platform L.blst S key s.service out
          → IsTruthful s (consumed req s out)
      cases (err e, t) p =
          unfold consumed count in
          record {
            spent = λ h. absurd (consume_error-status e h);
            unspent = λ h j. ground (arith, p.added j);
          }
      cases (ok result, t) p = by_status req result t p result.status refl

  consume_request-IsTruthful :
      (r : Request) (req : ConsumeRequest) (s : Server L N V)
      → IsTruthful s (consume_request r req s)
  unfolding consume_request count
  consume_request-IsTruthful r req s = cases (L.validator.struct_errors r.now (consume_fields req))
    where
      cases :
          (e : Option GoError)
          → IsTruthful s (elim e [
            | some e ↦ (
              respond_err (app invalid_argument (bytes "invalid request")),
              count (consumption (bytes "failure") req.credential_class req.key_epoch) s,
            )
            | none ↦
                consumed req s
                  (consume L.platform L.blst r.context r.now (redemption req) s.service)
          ])
      cases (some e) =
          untouched s _ _ (respond_err-status (app invalid_argument (bytes "invalid request"))) refl
      cases none = consumed-IsTruthful r req s

  -- A request to redeem that is answered with 200 spends one nullifier, which was new; with any
  -- other answer nothing is spent.
  pub handle_consume-IsTruthful :
      (r : Request) (s : Server L N V) → IsTruthful s (handle_consume r s)
  unfolding handle_consume count
  handle_consume-IsTruthful r s = cases (L.decoders.consume r.body)
    where
      cases :
          (d : Result ConsumeRequest)
          → IsTruthful s (elim d [
            | err e ↦ (
              respond_err (app_wrap invalid_argument (bytes "invalid request") e),
              count (consumption (bytes "failure") (bytes "unknown") (bytes "unknown")) s,
            )
            | ok req ↦ consume_request r req s
          ])
      cases (err e) =
          untouched s _ _
            (respond_err-status (app_wrap invalid_argument (bytes "invalid request") e)) refl
      cases (ok req) = consume_request-IsTruthful r req s
