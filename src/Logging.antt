-- ===== src/Logging.antt =====
-- pkg/logger and pkg/errors: the loggers that contexts carry, and what is logged with an error.
use blindvault.Base.{◌≡◌, Option, none, some, List, [], ◌∷◌, ◌++◌, Text, bytes, arith}
use blindvault.Apperr.{GoError, plain, wrapped}

-- A zerolog logger, by its fields; the global logger has none.
abbrev pub Fields : Type 0
Fields = List (Text × Text)

-- The two values that the package keeps in a context.
pub record LogContext : Type 0 where
  pub logger : Option Fields
  pub request_id : Option Text

-- WithLogger
unfoldable pub with_logger : LogContext → Fields → LogContext
with_logger ctx logger = record ctx { logger = some logger }

-- FromContext
unfoldable pub from_context : LogContext → Fields
from_context ctx = elim ctx.logger [ none ↦ [] | some l ↦ l ]

-- WithRequestID; `uuid` is what uuid.New yields
unfoldable pub with_request_id : Text → LogContext → LogContext × Text
unfolding with_logger from_context
with_request_id uuid ctx = elim ctx.request_id [
  | some id ↦ (with_logger ctx (from_context ctx ++ ((bytes "request_id", id) ∷ [])), id)
  | none ↦ (
    with_logger (record ctx { request_id = some uuid })
        (from_context ctx ++ ((bytes "request_id", uuid) ∷ [])),
    uuid,
  )
]

-- With; the fields of a Go map, in the order in which they are added
unfoldable pub with_fields : LogContext → Fields → LogContext
unfolding with_logger from_context
with_fields ctx fields = with_logger ctx (from_context ctx ++ fields)

-- zerolog's levels, by the helpers Info, Debug, Warn, Fatal, Error and Trace
pub data Level : Type 0 where
  info debug warn fatal error trace : Level

-- A line that is logged: the level, the fields of the logger, the error and the message.
pub record LogLine : Type 0 where
  pub level : Level
  pub fields : Fields
  pub cause : Option GoError
  pub text : Text

-- the event of a helper, sent with an error and a message
unfoldable pub log : Level → LogContext → Option GoError → Text → LogLine
unfolding from_context
log level ctx cause text = record {
  level = level;
  fields = from_context ctx;
  cause = cause;
  text = text;
}

-- errors.Wrap
unfoldable pub wrap : LogContext → GoError → Text → GoError × LogLine
unfolding log
wrap ctx e msg = (wrapped msg e, log error ctx (some e) msg)

-- errors.New
unfoldable pub new_error : LogContext → Text → GoError × LogLine
unfolding log
new_error ctx msg = (plain msg, log error ctx none msg)

-- Within a request the id never changes: a context that has one keeps it, whatever fields are
-- added in between, and its loggers carry it.
pub with_request_id_twice :
    (uuid other : Text) (fields : Fields) (ctx : LogContext)
    → let (ctx', id) = with_request_id uuid ctx in
      (with_request_id other (with_fields ctx' fields)).1 ≡ id
unfolding with_request_id with_fields
with_request_id_twice uuid other fields ctx = ground arith
