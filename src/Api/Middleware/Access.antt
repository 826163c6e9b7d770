-- ===== src/Api/Middleware/Access.antt =====
-- Who gets through the middlewares (internal/api/middleware.go), and what the others receive.
use blindvault.Base.{
  ◌≡◌, refl, ◌⊎◌, inl, inr, true, false, none, some, Text, is_empty, arith, Bool-cases,
}
use blindvault.Apperr.{GoError, Result, ok, err, code_of, http_status}
use blindvault.Api.Middleware.{
  Handler, cut_space, authenticate, require_role, rate_limit, client_address,
}
use blindvault.Api.RateLimiter.{allow}
use blindvault.Api.Response.{respond_err}
use blindvault.Api.Server.{Libraries, Request, Server}
use blindvault.Auth.{Claims, JwtValidator, has_role, validate}
use blindvault.Auth.Roles.{validate_accepted}
use blindvault.Storage.{NullifierStore, RevocationStore}

module _ (L : Libraries) (v : JwtValidator) (r : Request) where
  -- Every refusal of authenticate becomes a response with status 401.
  pub authenticate_refused :
      (e : GoError) → authenticate L v r ≡ err e → (respond_err e).status ≡ 401
  unfolding authenticate respond_err code_of http_status
  authenticate_refused e h = ground arith

  -- An authenticated request has a token that the validator accepted, and its subject is named.
  pub authenticate_accepted :
      (c : Claims)
      → authenticate L v r ≡ ok c
      → (token : Text) × (validate L.jwt r.now v token ≡ ok c) × (is_empty c.subject ≡ false)
  unfolding authenticate
  authenticate_accepted c h =
      elim (cut_space r.authorization) as (λ x. cut_space r.authorization ≡ x → Goal) [
        | none ↦ λ p. absurd (ground arith)
        | some (scheme, token) ↦ λ p.
            let accepted : validate L.jwt r.now v token ≡ ok c = ground arith in
            (token, accepted, (validate_accepted L.jwt r.now v token c accepted).1)
      ]
        refl
    where
      Goal : Type 0
      Goal = (token : Text) × (validate L.jwt r.now v token ≡ ok c) × (is_empty c.subject ≡ false)

module _ {L : Libraries} {N : NullifierStore} {V : RevocationStore} where
  -- The request carries a token whose claims hold the role.
  pub record IsAuthorised (role : Text) (r : Request) (s : Server L N V) : Type 0 where
    pub claims : Claims
    pub authenticated : authenticate L s.jwt_validator r ≡ ok claims
    pub holds : has_role claims role ≡ true

  -- RequireRole runs the handler with the claims of an authorised request; any other request gets
  -- 401 or 403, and leaves the server as it is.
  pub require_role_cases :
      (role : Text) (next : Handler L N V) (r : Request) (s : Server L N V)
      → ((a : IsAuthorised role r s) × (require_role role next r s
            ≡ next (record r { claims = some a.claims }) s))
        ⊎ ((((require_role role next r s).0.status ≡ 401)
              ⊎ ((require_role role next r s).0.status ≡ 403))
            × ((require_role role next r s).1 ≡ s))
  unfolding require_role respond_err code_of http_status
  require_role_cases role next r s = cases (authenticate L s.jwt_validator r) refl
    where
      cases :
          (a : Result Claims)
          → authenticate L s.jwt_validator r ≡ a
          → ((a : IsAuthorised role r s) × (require_role role next r s
                ≡ next (record r { claims = some a.claims }) s))
            ⊎ ((((require_role role next r s).0.status ≡ 401)
                  ⊎ ((require_role role next r s).0.status ≡ 403))
                × ((require_role role next r s).1 ≡ s))
      cases (err e) p =
          inr (inl (ground (arith, authenticate_refused L s.jwt_validator r e p)), ground arith)
      cases (ok c) p = elim (Bool-cases (has_role c role)) [
        | inl held ↦ inl (record { claims = c; authenticated = p; holds = held }, ground arith)
        | inr missing ↦ inr (inr (ground arith), ground arith)
      ]

  -- RateLimitMiddleware passes a request on, with only the limiter changed, or answers 429.
  pub rate_limit_cases :
      (next : Handler L N V) (r : Request) (s : Server L N V)
      → let charged = allow L.rate r.now (client_address L r) s.rate_limiter in
        let s' : Server L N V = record s { rate_limiter = charged.1 } in
        (rate_limit next r s ≡ next r s')
        ⊎ (((rate_limit next r s).0.status ≡ 429) × ((rate_limit next r s).1 ≡ s'))
  unfolding rate_limit respond_err code_of http_status
  rate_limit_cases next r s =
      elim (Bool-cases (allow L.rate r.now (client_address L r) s.rate_limiter).0) [
        | inl yes' ↦ inl (ground arith)
        | inr no' ↦ inr (ground arith, ground arith)
      ]
