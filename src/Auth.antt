-- ===== src/Auth.antt =====
-- internal/auth: claims, roles and the token validator.
pub mod Roles
use blindvault.Base.{
  ℕ, Bool, true, false, ◌||◌, Option, none, some, List, [], ◌∷◌, ◌++◌, Text, bytes, is_empty,
  contains, if◌then◌else◌,
}
use blindvault.Apperr.{GoError, plain, wrapped, Result, ok, err}

-- Claims; of jwt.RegisteredClaims the program reads the subject
pub record Claims : Type 0 where
  pub subject : Text
  pub admin : Bool
  pub roles : List Text

-- Claims.HasRole
unfoldable pub has_role : Claims → Text → Bool
has_role c role = if c.admin then true else contains c.roles role

any_role : List Text → List Text → Bool
any_role held [] = false
any_role held (r ∷ rs) = let rest = any_role held rs in if contains held r then true else rest

-- Claims.HasAnyRole
unfoldable pub has_any_role : Claims → List Text → Bool
unfolding any_role
has_any_role c roles = if c.admin then true else any_role c.roles roles

-- JWTValidator
pub record JwtValidator : Type 0 where
  pub secret : Text
  pub issuer : Text
  pub audience : Text

-- NewJWTValidator, from the fields of ValidatorConfig
unfoldable pub new_jwt_validator : Text → Text → Text → JwtValidator
new_jwt_validator secret issuer audience = record {
  secret = secret;
  issuer = issuer;
  audience = audience;
}

-- the options of the parser
pub data ParserOption : Type 0 where
  valid_methods : List Text → ParserOption
  expiration_required : ParserOption
  with_issuer with_audience : Text → ParserOption

-- What jwt.ParseWithClaims returns: whether the token is valid, and the claims it filled in.
pub record Parsed : Type 0 where
  pub valid : Bool
  pub claims : Claims

-- github.com/golang-jwt/jwt/v5 at a time: the key that the key function returns for an HMAC token,
-- the options and the token
pub record Jwt : Type 0 where
  pub parse_with_claims : ℕ → Text → List ParserOption → Text → Result Parsed

-- the options that Validate builds
unfoldable pub parser_options : JwtValidator → List ParserOption
parser_options v =
    valid_methods (bytes "HS256" ∷ bytes "HS384" ∷ bytes "HS512" ∷ [])
    ∷ (expiration_required
        ∷ ((if is_empty v.issuer then [] else with_issuer v.issuer ∷ [])
            ++ (if is_empty v.audience then [] else with_audience v.audience ∷ [])))

accept : Parsed → Result Claims
accept token =
    if token.valid
    then (if is_empty token.claims.subject
        then err (plain (bytes "token missing subject (sub) claim"))
        else ok token.claims)
    else err (plain (bytes "token is not valid"))

-- JWTValidator.Validate
unfoldable pub validate : Jwt → ℕ → JwtValidator → Text → Result Claims
unfolding accept
validate J now v token_string =
    elim (J.parse_with_claims now v.secret (parser_options v) token_string) [
      | err e ↦ err (wrapped (bytes "token parse") e)
      | ok token ↦ accept token
    ]

-- The claims that a context carries, if any.
abbrev pub ClaimsContext : Type 0
ClaimsContext = Option Claims

-- WithClaims
unfoldable pub with_claims : ClaimsContext → Claims → ClaimsContext
with_claims ctx claims = some claims

-- ClaimsFromContext; `none` where the second result is false
unfoldable pub claims_from_context : ClaimsContext → Option Claims
claims_from_context ctx = ctx

-- SubjectFromContext
unfoldable pub subject_from_context : ClaimsContext → Text
unfolding claims_from_context
subject_from_context ctx = elim (claims_from_context ctx) [
  | some c ↦ c.subject
  | none ↦ bytes "unknown"
]
