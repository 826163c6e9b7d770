-- ===== src/Tests/ServerRuns.antt =====
-- The theorems on the server, at the toy server.
use blindvault.Base.{
  ◌≡◌, ◌≢◌, ◌⊎◌, ◌≤◌, ◌<◌, refl, arith, ℕ, none, some, [], ◌∷◌, Text, bytes, Map, length, pos,
}
use blindvault.Apperr.{app, forbidden, message, ok, err, plain}
use blindvault.Api.Handlers.Admin.{handle_admin_revoke}
use blindvault.Api.Handlers.Consume.{handle_consume}
use blindvault.Api.Handlers.Issue.{handle_issue}
use blindvault.Api.Middleware.Access.{IsAuthorised}
use blindvault.Api.RateLimiter.{LimitClient, RateLimiter, host_of, allow}
use blindvault.Api.RateLimiter.Bounds.{allow_bound}
use blindvault.Api.Response.{respond_json, respond_err, status_text, error_body, respond_err_hides}
use blindvault.Api.Routes.{admin_revoke, serve}
use blindvault.Api.Routes.ConsumeRoute.{IsTruthful, handle_consume-IsTruthful}
use blindvault.Api.Routes.Guards.{IsRefused, serve_protected}
use blindvault.Api.Routes.RevokeRoute.{revoke_blocks}
use blindvault.Api.Routes.IssueRoute.{handle_issue-invalid_point}
use blindvault.Api.Server.{Request, server_validator}
use blindvault.Api.Server.Tokens.{validate-server_validator}
use blindvault.Tests.ToyService.{toy_config}
use blindvault.Auth.{validate}
use blindvault.Context.{check_context}
use blindvault.Crypto.Scalar.{deserialize_g1, be_value}
use blindvault.Storage.Memory
use blindvault.Storage.Memory.{memory_store-IsNullifierSet}
use blindvault.Storage.RevocationMemory.{memory_store, revoke_class}
use blindvault.Storage.RevocationMemory.Policy.{memory-IsRevoking}
use blindvault.Tests.ToyBlst.{uncompress, toy_blst}
use blindvault.Tests.ToyServer.{
  toy_rate, toy_libraries, toy_server, toy_request, toy_claims, issue_body, no_point, consume_body,
  revoke_body,
}
use blindvault.Validation
use blindvault.Validation.Schema.{hex_len}
use blindvault.Api.HostPort.{split_host_port}
use blindvault.Api.Types.{passes, text_passes, time_passes, issue_fields, revoke_fields}
use blindvault.Validation.Hex.{decode_string, from_hex_char}

handle_consume-IsTruthful_example :
    IsTruthful memory_store-IsNullifierSet toy_server (handle_consume toy_request toy_server)
handle_consume-IsTruthful_example =
    handle_consume-IsTruthful memory_store-IsNullifierSet toy_request toy_server

serve_protected_example :
    IsAuthorised (bytes "admin") toy_request toy_server
    ⊎ IsRefused toy_server
        (serve admin_revoke toy_request toy_server).0.status
        (serve admin_revoke toy_request toy_server).1
serve_protected_example = serve_protected admin_revoke (bytes "admin") toy_request toy_server refl

abbrev no_point_bytes : Text
no_point_bytes = elim (decode_string no_point) [ ok b ↦ b | err e ↦ [] ]

passed : toy_libraries.validator.struct_errors 5 (issue_fields issue_body) ≡ none
unfolding passes text_passes issue_fields hex_len Validation.class Validation.all_chars
    Validation.is_class_char Validation.is_digit decode_string from_hex_char
passed = refl

refused :
    deserialize_g1 toy_blst no_point_bytes
    ≡ err (plain (bytes "invalid G1 point: deserialization failed"))
unfolding deserialize_g1 uncompress decode_string from_hex_char be_value
refused = refl

read : decode_string no_point ≡ ok no_point_bytes
unfolding decode_string from_hex_char
read = refl

live : check_context toy_request.context 0 ≡ none
unfolding check_context
live = refl

handle_issue-invalid_point_example : (handle_issue toy_request toy_server).0.status ≡ 500
handle_issue-invalid_point_example =
    handle_issue-invalid_point toy_request toy_server issue_body no_point_bytes
      (plain (bytes "invalid G1 point: deserialization failed")) refl passed refl read live refused

respond_err_hides_example :
    (400 ≤ (respond_err (app forbidden (bytes "role"))).status)
    × ((respond_err (app forbidden (bytes "role"))).status < 600)
    × (((respond_err (app forbidden (bytes "role"))).status < 500)
          × ((respond_err (app forbidden (bytes "role"))).payload
              ≡ error_body
                  (message (app forbidden (bytes "role")))
                  (respond_err (app forbidden (bytes "role"))).status)
        ⊎ (500 ≤ (respond_err (app forbidden (bytes "role"))).status)
          × ((respond_err (app forbidden (bytes "role"))).payload
              ≡ error_body
                  (status_text (respond_err (app forbidden (bytes "role"))).status)
                  (respond_err (app forbidden (bytes "role"))).status))
respond_err_hides_example = respond_err_hides (app forbidden (bytes "role"))

valid : validate toy_libraries.jwt 5 toy_server.jwt_validator (bytes "token") ≡ ok toy_claims
unfolding validate
valid = refl

abbrev clients : Map (LimitClient toy_rate)
clients =
    (bytes "a", record { client = bytes "a"; limit = pos 3; last_updated = 2 })
    ∷ (bytes "b", record { client = bytes "b"; limit = pos 3; last_updated = 1 })
    ∷ []

abbrev limiter : ℕ → RateLimiter toy_rate
limiter max = record {
  limit = pos 60;
  burst = pos 5;
  clients = some clients;
  max_clients = pos max;
}

allow_bound_example :
    (after : Map (LimitClient toy_rate)) × ((allow toy_rate 9 (bytes "c") (limiter 2)).1.clients
      ≡ some after)
    × (length after ≤ 2)
allow_bound_example =
    allow_bound toy_rate 9 2 (bytes "c") (limiter 2) clients refl refl (omega arith)
      ((refl, omega arith), ((refl, omega arith), tt)) (omega arith)

apart : host_of toy_rate (bytes "c") ≢ bytes "a"
unfolding host_of split_host_port
apart e = ground arith

validate-server_validator_example :
    validate toy_libraries.jwt 5 (server_validator toy_config) (bytes "token")
    ≡ validate toy_libraries.jwt 5
        (server_validator (record toy_config { jwt_issuer = [] }))
        (bytes "token")
validate-server_validator_example =
    validate-server_validator toy_libraries.jwt 5 (bytes "token") toy_config
      (record toy_config { jwt_issuer = [] }) refl

abbrev admin_request : Request
admin_request = record toy_request { claims = some toy_claims }

abbrev later_request : Request
later_request = record toy_request { now = 90000000 }

revocation_taken :
    (handle_admin_revoke {L = toy_libraries} {N = Memory.memory_store} {V = memory_store} []
      admin_request toy_server).0.status
    ≡ 200
unfolding handle_admin_revoke passes text_passes time_passes revoke_fields Validation.class
    Validation.all_chars Validation.is_class_char Validation.is_digit respond_json Validation.epoch
    revoke_class
revocation_taken = refl

revoke_blocks_example :
    (handle_consume later_request
      (handle_admin_revoke {L = toy_libraries} {V = memory_store} [] admin_request
        toy_server).1).0.status
    ≢ 200
revoke_blocks_example =
    revoke_blocks memory-IsRevoking [] admin_request later_request revoke_body consume_body
      toy_server
      (handle_admin_revoke {L = toy_libraries} {V = memory_store} [] admin_request toy_server).1
      refl refl refl refl revocation_taken refl (omega arith) refl
