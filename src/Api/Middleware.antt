-- ===== src/Api/Middleware.antt =====
-- internal/api/middleware.go. A panic of a handler, which RecoveryMiddleware turns into an error
-- response, is modelled in Writer: the handlers here are total.
pub mod Access
use blindvault.Base.{
  ℕ, ◌+◌, Bool, true, false, not, ◌&&◌, Option, none, some, List, [], ◌∷◌, ◌++◌, map, Text, bytes,
  is_empty, ltb, leb, nat_eq, ◌==◌, split, trim_space, if◌then◌else◌,
}
use blindvault.Apperr.{
  GoError, app, app_wrap, unauthorized, forbidden, too_many_request, Result, ok, err, map_err,
  ◌>>=◌,
}
use blindvault.Api.HostPort.{split_host_port}
use blindvault.Api.RateLimiter.{Rate, RateLimiter, allow, host_of}
use blindvault.Api.Response.{Response, respond_err}
use blindvault.Api.Server.{Libraries, Request, Server, count}
use blindvault.Api.Types.{Body}
use blindvault.Auth.{Claims, has_role, JwtValidator, validate}
use blindvault.Metrics.{http_request}
use blindvault.Storage.{NullifierStore, RevocationStore}

-- strings.SplitN(h, " ", 2), where it has two parts
cut_space : Text → Option (Text × Text)
cut_space [] = none
cut_space (c ∷ s) = elim (cut_space s) [
  | none ↦ if nat_eq c 32 then some ([], s) else none
  | some (scheme, token) ↦ if nat_eq c 32 then some ([], s) else some (c ∷ scheme, token)
]

to_lower : ℕ → ℕ
to_lower c = if leb b'A' c && leb c b'Z' then c + 32 else c

-- strings.EqualFold(s, "Bearer"); no letter of "Bearer" folds to anything outside ASCII
is_bearer : Text → Bool
is_bearer s = map to_lower s == bytes "bearer"

-- the first piece of a list at a comma, without space around it
first_piece : Text → Text
first_piece s = elim (split b',' s) [ [] ↦ [] | piece ∷ pieces ↦ trim_space piece ]

module _ (L : Libraries) where
  -- Server.authenticate
  unfoldable pub authenticate : JwtValidator → Request → Result Claims
  unfolding cut_space is_bearer to_lower
  authenticate v r =
      if is_empty r.authorization
      then err (app unauthorized (bytes "missing authorization header"))
      else elim (cut_space r.authorization) [
        | none ↦ err (app unauthorized (bytes "invalid authorization format"))
        | some (scheme, token) ↦
            if is_bearer scheme
            then map_err (λ e. app_wrap unauthorized (bytes "invalid token") e)
                (validate L.jwt r.now v token)
            else err (app unauthorized (bytes "invalid authorization format"))
      ]

  -- the client that RateLimitMiddleware charges
  unfoldable pub client_address : Request → Text
  unfolding first_piece
  client_address r =
      let ip = host_of L.rate r.remote_addr in
      if is_empty r.forwarded_for
      then ip
      else if L.is_trusted_proxy ip
      then first_piece r.forwarded_for
      else ip

-- http.HandlerFunc: the response, and the server afterwards
abbrev pub Handler : Libraries → NullifierStore → RevocationStore → Type 0
Handler L N V = Request → Server L N V → Response × Server L N V

module _ {L : Libraries} {N : NullifierStore} {V : RevocationStore} where
  -- Server.RequireRole; the verb %q puts quotes around a role of letters
  unfoldable pub require_role : Text → Handler L N V → Handler L N V
  require_role role next r s = elim (authenticate L s.jwt_validator r) [
    | err e ↦ (respond_err e, s)
    | ok claims ↦ if has_role claims role then next (record r { claims = some claims }) s else (
      respond_err (app forbidden (bytes "role " ++ (b'"' ∷ (role ++ (b'"' ∷ bytes " required"))))),
      s,
    )
  ]

  -- Server.BodyLimitMiddleware
  unfoldable pub body_limit : ℕ → Handler L N V → Handler L N V
  body_limit limit next r s =
      next (record r { body = record { content = r.body.content; limit = some limit } }) s

  -- Server.RateLimitMiddleware
  unfoldable pub rate_limit : Handler L N V → Handler L N V
  rate_limit next r s =
      let (allowed, limiter') = allow L.rate r.now (client_address L r) s.rate_limiter in
      let s' : Server L N V = record s { rate_limiter = limiter' } in
      if allowed
      then next r s'
      else (respond_err (app too_many_request (bytes "rate limit exceeded")), s')

  -- Server.LoggerMiddleware: the metric; log lines and the request id are not modelled
  unfoldable pub logged : Handler L N V → Handler L N V
  unfolding count
  logged next r s =
      let (response, s') = next r s in
      (response, count (http_request r.method r.path response.status) s')
