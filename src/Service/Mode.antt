-- ===== src/Service/Mode.antt =====
-- internal/service/mode.go; a mode is a string.
use blindvault.Base.{Bool, ◌||◌, Text, bytes, ◌==◌}

abbrev pub mode_development : Text
mode_development = bytes "development"

abbrev pub mode_test : Text
mode_test = bytes "test"

abbrev pub mode_production : Text
mode_production = bytes "production"

-- Mode.IsProduction
unfoldable pub is_production : Text → Bool
is_production m = m == mode_production

-- Mode.IsValid
unfoldable pub is_valid : Text → Bool
is_valid m = m == mode_development || m == mode_test || m == mode_production
