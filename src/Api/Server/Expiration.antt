-- ===== src/Api/Server/Expiration.antt =====
-- The expiration that NewServer hands to the Redis nullifier store (internal/api/server.go).
use blindvault.Service.Config.{Config}
use blindvault.Storage.Redis.{Redis}
