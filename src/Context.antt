-- ===== src/Context.antt =====
-- Go's context.Context, as far as the program looks at it, and internal/helper/context.go.
use blindvault.Base.{ℕ, Option}
use blindvault.Apperr.{GoError}

-- What the n-th look of a request at ctx.Done() finds: nothing, or the error of the context.
abbrev pub Context : Type 0
Context = ℕ → Option GoError

-- CheckContext
unfoldable pub check_context : Context → ℕ → Option GoError
check_context ctx look = ctx look

-- The surroundings of one store call: what its look at ctx.Done() finds, and the time.
pub record Call : Type 0 where
  pub done : Option GoError
  pub now : ℕ
