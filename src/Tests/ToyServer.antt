-- ===== src/Tests/ToyServer.antt =====
-- A server over the toy service. Bodies are not parsed: the decoders yield fixed requests.
use blindvault.Base.{
  zero, suc, ℤ, true, false, none, some, [], ◌∷◌, Text, bytes, if◌then◌else◌, pos, negsuc,
}
use blindvault.Apperr.{plain, ok, err}
use blindvault.Api.RateLimiter.{Rate}
use blindvault.Api.Server.{Libraries, Request, Server}
use blindvault.Api.Types.{AdminRevokeRequest, ConsumeRequest, IssueRequest, passes}
use blindvault.Auth.{Claims}
use blindvault.Storage.Memory
use blindvault.Storage.RevocationMemory
use blindvault.Tests.ToyBlst.{toy_blst, toy_platform}
use blindvault.Tests.ToyService.{class, epoch, toy_config, toy_service, quiet, toy_credential}

-- a bucket of a number of tokens
abbrev pub toy_rate : Rate
toy_rate = record {
  Limit = ℤ;
  Limiter = ℤ;
  zero_limit = pos 0;
  per_minute = λ n. n;
  new_limiter = λ limit burst. burst;
  allow = λ now bucket. elim bucket [
    | pos n ↦ elim n [ zero ↦ (false, pos 0) | suc m ↦ (true, pos m) ]
    | negsuc n ↦ (false, negsuc n)
  ];
}

abbrev pub toy_claims : Claims
toy_claims = record { subject = bytes "alice"; admin = false; roles = bytes "issuer" ∷ [] }

abbrev pub consume_body : ConsumeRequest
consume_body = record {
  unblinded_signature = toy_credential.signature;
  witness = toy_credential.witness;
  credential_class = class;
  key_epoch = epoch;
}

-- 48 bytes in hex that are no point
abbrev pub no_point : Text
no_point =
    bytes
      "ffffffffffffffffffffffffffffffffffffffffffffffffffffffffffffffffffffffffffffffffffffffffffffffff"

abbrev pub issue_body : IssueRequest
issue_body = record { blinded_message = no_point; credential_class = class }

-- the class of the credential, revoked for a tenth of a second
abbrev pub revoke_body : AdminRevokeRequest
revoke_body = record {
  credential_class = class;
  key_epoch = epoch;
  reason = bytes "leak";
  revoked_until = some 100000000;
}

abbrev pub toy_libraries : Libraries
toy_libraries = record {
  platform = toy_platform;
  blst = toy_blst;
  rate = toy_rate;
  jwt = record {
    parse_with_claims =
        λ now secret options token. ok (record { valid = true; claims = toy_claims });
  };
  validator = record {
    struct_errors =
        λ now fields. if passes now fields then none else some (plain (bytes "invalid"));
  };
  decoders = record {
    issue = λ body. ok issue_body;
    consume = λ body. ok consume_body;
    revoke = λ body. ok revoke_body;
    unrevoke = λ body. err (plain (bytes "EOF"));
    demo = λ body. ok body.content;
  };
  is_trusted_proxy = λ host. false;
}

abbrev pub toy_server : Server toy_libraries Memory.memory_store RevocationMemory.memory_store
toy_server = record {
  service = toy_service;
  jwt_validator = record { secret = toy_config.auth_secret; issuer = []; audience = [] };
  rate_limiter = record { limit = pos 60; burst = pos 5; clients = some []; max_clients = pos 2 };
  demo_store = some [];
}

abbrev pub toy_request : Request
toy_request = record {
  context = quiet;
  now = 5;
  random = ok (bytes "odd");
  ticket_id = bytes "0123";
  method = bytes "POST";
  path = bytes "/";
  remote_addr = bytes "192.0.2.1:80";
  authorization = [];
  forwarded_for = [];
  query_ticket_id = bytes "0123";
  body = record { content = bytes "ciphertext"; limit = none };
  claims = none;
}
