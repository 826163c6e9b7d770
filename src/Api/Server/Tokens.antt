-- ===== src/Api/Server/Tokens.antt =====
-- Which tokens a server of NewServer accepts (internal/api/server.go, internal/auth/jwt.go).
use blindvault.Base.{ℕ, ◌≡◌, ap, [], Text}
use blindvault.Api.Server.{server_validator}
use blindvault.Auth.{Jwt, new_jwt_validator, validate}
use blindvault.Crypto.Blst.{Platform}
use blindvault.Service.Config.{Config}

-- Two configurations with the same secret accept the same tokens, whatever issuer and audience
-- they require.
pub validate-server_validator :
    {P : Platform} (J : Jwt) (now : ℕ) (token : Text) (c d : Config P)
    → c.auth_secret ≡ d.auth_secret
    → validate J now (server_validator c) token ≡ validate J now (server_validator d) token
unfolding server_validator
validate-server_validator J now token c d same =
    ap (λ secret. validate J now (new_jwt_validator secret [] []) token) same
