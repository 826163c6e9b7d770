-- ===== src/Auth/Roles.antt =====
-- Which claims hold which roles (internal/auth/claims.go), and what Validate accepts (jwt.go).
use blindvault.Base.{◌≡◌, refl, ℕ, Bool, true, false, ◌||◌, List, [], ◌∷◌, Text, is_empty, arith}
use blindvault.Apperr.{Result, ok, err}
use blindvault.Auth.{
  Claims, has_role, has_any_role, Jwt, JwtValidator, Parsed, parser_options, validate,
}

-- Some role of the list is held.
abbrev pub any_has_role : Claims → List Text → Bool
any_has_role c [] = false
any_has_role c (r ∷ rs) = has_role c r || any_has_role c rs

-- For a list of at least one role, HasAnyRole holds exactly when HasRole holds of one of them.
pub has_any_role-eq-any :
    (c : Claims) (r : Text) (rs : List Text) → has_any_role c (r ∷ rs) ≡ any_has_role c (r ∷ rs)
unfolding has_any_role has_role
has_any_role-eq-any c r [] = ground arith
has_any_role-eq-any c r (q ∷ rs) = ground (arith, has_any_role-eq-any c q rs)

-- An accepted token was valid for the library, under the secret and the options of the validator,
-- and names a subject.
pub validate_accepted :
    (J : Jwt) (now : ℕ) (v : JwtValidator) (token : Text) (c : Claims)
    → validate J now v token ≡ ok c
    → (J.parse_with_claims now v.secret (parser_options v) token
        ≡ ok (record { valid = true; claims = c }))
      × (is_empty c.subject ≡ false)
unfolding validate
validate_accepted J now v token c h =
    cases (J.parse_with_claims now v.secret (parser_options v) token) refl
  where
    cases :
        (r : Result Parsed)
        → J.parse_with_claims now v.secret (parser_options v) token ≡ r
        → (J.parse_with_claims now v.secret (parser_options v) token
            ≡ ok (record { valid = true; claims = c }))
          × (is_empty c.subject ≡ false)
    cases (err e) p = absurd (ground arith)
    cases (ok t) p = ground arith
