-- ===== src/Api/Routes/Guards.antt =====
-- Who reaches the routes of NewServer (internal/api/server.go) that need a role.
use blindvault.Base.{ℕ, ◌≡◌, ◌⊎◌, inl, inr, Option, none, some, Text, bytes, arith}
use blindvault.Api.Handlers.Admin.{handle_admin_revoke, handle_admin_unrevoke, handle_admin_list}
use blindvault.Api.Handlers.Issue.{handle_issue}
use blindvault.Api.Middleware.{
  authenticate, Handler, require_role, body_limit, logged, client_address,
}
use blindvault.Api.Middleware.Access.{IsAuthorised, require_role_cases, rate_limit_cases}
use blindvault.Api.RateLimiter.{allow}
use blindvault.Api.Routes.{
  Route, issue, consume, admin_revoke, admin_unrevoke, admin_list, health, metrics, demo_store,
  demo_retrieve, max_body, guarded, on_revocations, serve,
}
use blindvault.Api.Server.{Libraries, Request, Server, count}
use blindvault.Storage.{NullifierStore, RevocationStore}

-- the role that a route asks for
abbrev pub role_of : Route → Option Text
role_of issue = some (bytes "issuer")
role_of admin_revoke = some (bytes "admin")
role_of admin_unrevoke = some (bytes "admin")
role_of admin_list = some (bytes "admin")
role_of _ = none

module _ {L : Libraries} {N : NullifierStore} {V : RevocationStore} where
  -- All but the limiter and the metrics of a server is as it was.
  pub record Keeps (s t : Server L N V) : Type 0 where
    pub config : t.service.config ≡ s.service.config
    pub store : t.service.store ≡ s.service.store
    pub revocation_store : t.service.revocation_store ≡ s.service.revocation_store
    pub demo : t.demo_store ≡ s.demo_store
    pub jwt_validator : t.jwt_validator ≡ s.jwt_validator

  -- A refusal by one of the middlewares.
  pub record IsRefused (s : Server L N V) (status : ℕ) (t : Server L N V) : Type 0 where
    pub refusal : (status ≡ 401) ⊎ ((status ≡ 403) ⊎ (status ≡ 429))
    pub keeps : Keeps s t

  guarded_cases :
      (role : Text) (h : Handler L N V) (r : Request) (s : Server L N V)
      → IsAuthorised role r s
        ⊎ IsRefused s
            (guarded (require_role role h) r s).0.status
            (guarded (require_role role h) r s).1
  unfolding logged count body_limit authenticate
  guarded_cases role h r s =
      elim (rate_limit_cases (body_limit max_body (require_role role h)) r s) [
        | inr (status, same) ↦ inr (record {
          refusal = inr (inr status);
          keeps = record {
            config = ground (arith, same);
            store = ground (arith, same);
            revocation_store = ground (arith, same);
            demo = ground (arith, same);
            jwt_validator = ground (arith, same);
          };
        })
        | inl passed ↦ elim (require_role_cases role h r' s') [
          | inl (a, run) ↦
              inl (record { claims = a.claims; authenticated = a.authenticated; holds = a.holds })
          | inr (status, same) ↦ inr (record {
            refusal = elim status [
              | inl unauthorised ↦ inl (ground (arith, passed, unauthorised))
              | inr missing ↦ inr (inl (ground (arith, passed, missing)))
            ];
            keeps = record {
              config = ground (arith, passed, same);
              store = ground (arith, passed, same);
              revocation_store = ground (arith, passed, same);
              demo = ground (arith, passed, same);
              jwt_validator = ground (arith, passed, same);
            };
          })
        ]
      ]
    where
      r' : Request
      r' = record r { body = record { content = r.body.content; limit = some max_body } }

      s' : Server L N V
      s' = record s { rate_limiter = (allow L.rate r.now (client_address L r) s.rate_limiter).1 }

  -- A request to a route that needs a role comes from a client whose token holds the role, or it
  -- is answered with 401, 403 or 429 and changes neither the configuration nor a store.
  pub serve_protected :
      (route : Route) (role : Text) (r : Request) (s : Server L N V)
      → role_of route ≡ some role
      → IsAuthorised role r s ⊎ IsRefused s (serve route r s).0.status (serve route r s).1
  unfolding serve
  serve_protected issue role r s h = ground (arith, guarded_cases role handle_issue r s)
  serve_protected admin_revoke role r s h =
      ground (arith, guarded_cases role (on_revocations handle_admin_revoke) r s)
  serve_protected admin_unrevoke role r s h =
      ground (arith, guarded_cases role (on_revocations handle_admin_unrevoke) r s)
  serve_protected admin_list role r s h =
      ground (arith, guarded_cases role (on_revocations handle_admin_list) r s)
  serve_protected consume role r s h = absurd (ground arith)
  serve_protected health role r s h = absurd (ground arith)
  serve_protected metrics role r s h = absurd (ground arith)
  serve_protected demo_store role r s h = absurd (ground arith)
  serve_protected demo_retrieve role r s h = absurd (ground arith)
