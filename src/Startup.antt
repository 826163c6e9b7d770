-- ===== src/Startup.antt =====
-- cmd/server/main.go and the life of a server (internal/api/server.go): from the flags to the exit
-- status.
pub mod Configure
pub mod Configured
pub mod Run
