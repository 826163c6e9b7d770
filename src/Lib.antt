-- ===== src/Lib.antt =====
-- BlindVault: a server for anonymous credentials with blind BLS signatures.
--
-- A client blinds a point, the server signs it under a key of the active epoch and a credential
-- class, the client unblinds the signature and later redeems it once, unlinked to its issuance.
--
-- The parts and their files. Paths are from the root of the repository.
--   Base, with Base/*: texts as lists of byte values, maps as lists of pairs, integers, and the
--     parts of the packages strings and strconv that the program calls.
--   Apperr: pkg/apperr/apperr.go. A Go error is a GoError; a function that returns a value and an
--     error has the type Result.
--   Crypto: pkg/crypto. Blst and Platform are records of what blst, memguard, SHA-256 and HKDF
--     provide, Laws the documented behaviour that theorems take as hypotheses. Scalar is scalar.go
--     and serialize.go, Engine bls.go, Dleq dleq.go, Derive derive.go, Nullifier nullifier.go.
--   Context: internal/helper/context.go. Logging: pkg/logger and pkg/errors. Metrics: the calls of
--     pkg/metrics/metrics.go, with Metrics/Collector the collector of internal/api/metrics.go over
--     Prometheus as a parameter.
--   Validation: internal/validation. Hex is encoding/hex, Schema the rule hex_len.
--   Storage: internal/storage. NullifierStore and RevocationStore are the interfaces of store.go;
--     Contract says what CheckAndStore, and RevokeClass with IsRevoked, promise. Memory and
--     RevocationMemory are the stores in memory; Redis is a parameter, with Redis/Nullifier and
--     Redis/Revocation the stores over it, and Redis/Connect the constructors that dial it.
--   Service: internal/service. Config/Overrides is ApplyEnvOverrides, Config/Seed LoadMasterSeed
--     and MasterSeed, Config/Validate Validate. Credentials/Issue and Credentials/Consume are the
--     two operations of CredentialService, over any two stores.
--   Auth: internal/auth. The JWT library is a parameter.
--   Api: internal/api. RateLimiter, Types (the requests and their tags), Response, Server (the state
--     and NewServer), Server/Build (the choice of stores in NewServer, the cleanups of Start, and
--     Shutdown), Middleware, Handlers, Demo, Routes, the table of NewServer with each chain of
--     middlewares, and Writer, the writer of responses around a handler that may panic.
--   Client: pkg/client, with State the pending requests of state.go, Files the file that keeps
--     them, Process the operations that save it, and Protocol the client against the service. The
--     file system and the POST to the server are parameters. EndToEnd is cmd/testclient/main.go.
--   Commands: cmd/bv, a module for each command, Flags for the package flag, Program for main, and
--     Session for the commands one after the other against the service.
--   Startup: cmd/server/main.go. Configure is run up to NewServer, Run the rest.
--   Vectors: scripts/generate_vectors.go.
--   Tests: instances of the parameters that compute, and the theorems applied to them.
--
-- A handler or an operation takes the state and returns it with the result. What Go guards with a
-- mutex is one step. An interleaving of requests is a sequence of steps (Consume/Sequence), in which
-- the checks of a redemption and its call of CheckAndStore may stand apart. A call reads the clock
-- once; times and durations are nanoseconds.
--
-- The loop of ListRevocations on Redis runs on fuel, one unit for a page; the other loops are
-- structural. A round reads a page, so the number of pages of the scan is enough.
--
-- A process is a function of what its surroundings answer to the value with which it ends: its exit
-- status and what it prints, or the error of run. The commands pass the state of the file system on.
--
-- Not modelled: the log lines of handlers, JSON (a decoder is a parameter), the wiping of memory, the
-- browser client, and what the libraries do behind their parameters: Prometheus, go-redis, godotenv,
-- YAML, the JWT library, net/http and blst. The stores of a server that share one Redis client are
-- two values, which their keys keep apart. A point in affine and in projective form is one value.
-- The limits of the rate limiter, which are floating-point numbers, are a parameter.
pub mod Base
pub mod Apperr
pub mod Crypto
pub mod Context
pub mod Validation
pub mod Metrics
pub mod Logging
pub mod Storage
pub mod Auth
pub mod Api
pub mod Service
pub mod Startup
pub mod Vectors
pub mod Tests
pub mod Client
pub mod Commands
