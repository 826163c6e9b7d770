-- ===== src/Api/Writer.antt =====
-- internal/api/writer.go, and what LoggerMiddleware and RecoveryMiddleware (middleware.go) do around
-- a handler that may panic. A handler stands for the calls that it makes on its writer.
use blindvault.Base.{
  ℕ, ◌≡◌, refl, sym, ◌∙◌, ap, Bool, true, false, ◌&&◌, not, nat_eq, leb, Option, none, some, List,
  [], ◌∷◌, ◌++◌, Text, if◌then◌else◌,
}

-- A call on an http.ResponseWriter.
pub data WriterCall : Type 0 where
  write_header : ℕ → WriterCall
  write : Text → WriterCall

-- responseWriter; `inner` are the calls that have reached the writer that it wraps
pub record ResponseWriter : Type 0 where
  pub inner : List WriterCall
  pub status_code : ℕ
  pub written : Bool

-- newResponseWriter, around a writer that was called so far
unfoldable pub new_response_writer : List WriterCall → ResponseWriter
new_response_writer inner = record { inner = inner; status_code = 200; written = false }

-- responseWriter.WriteHeader
unfoldable pub on_write_header : ℕ → ResponseWriter → ResponseWriter
on_write_header status w = if w.written then w else record {
  inner = w.inner ++ (write_header status ∷ []);
  status_code = status;
  written = true;
}

-- responseWriter.Write
unfoldable pub on_write : Text → ResponseWriter → ResponseWriter
on_write b w =
    if w.written
    then record w { inner = w.inner ++ (write b ∷ []) }
    else record { inner = w.inner ++ (write b ∷ []); status_code = 200; written = true }

-- responseWriter.Status
unfoldable pub status : ResponseWriter → ℕ
status w = w.status_code

-- the calls of a handler on the wrapping writer
unfoldable pub call_all : List WriterCall → ResponseWriter → ResponseWriter
unfolding on_write_header on_write
call_all [] w = w
call_all (write_header n ∷ calls) w = call_all calls (on_write_header n w)
call_all (write b ∷ calls) w = call_all calls (on_write b w)

-- A handler: its calls, and whether it panics behind them.
pub record Script : Type 0 where
  pub calls : List WriterCall
  pub panics : Bool

-- LoggerMiddleware: the status that is counted, if the handler returns, and the writer
unfoldable pub logger_middleware : Script → Option ℕ × List WriterCall
unfolding status call_all new_response_writer
logger_middleware s =
    let w = call_all s.calls (new_response_writer []) in
    if s.panics then (none, w.inner) else (some (status w), w.inner)

-- RecoveryMiddleware around LoggerMiddleware: the error response of a panic goes to the outer
-- writer; `body` is its JSON text
unfoldable pub recovery_middleware : Text → Script → Option ℕ × List WriterCall
unfolding logger_middleware
recovery_middleware body s =
    let (counted, calls) = logger_middleware s in
    if s.panics then (counted, calls ++ (write_header 500 ∷ write body ∷ [])) else (counted, calls)

-- `len(calls) == 0`
abbrev pub no_calls : List WriterCall → Bool
no_calls [] = true
no_calls (c ∷ calls) = false

-- A status that ends the header, and a status of an informational header, which does not.
abbrev pub is_final : ℕ → Bool
is_final n = leb 200 n && leb n 999

abbrev pub is_informational : ℕ → Bool
is_informational n = leb 100 n && leb n 199 && not (nat_eq n 101)

-- What net/http promises of the status that it sends for calls on its writer: the first status that
-- ends the header counts, a write before it stands for 200, and so does the end of the handler. At a
-- status below 100 or above 999 WriteHeader panics; of such calls nothing is said.
pub record IsHttp (sent : List WriterCall → ℕ) : Type 0 where
  pub nothing : sent [] ≡ 200
  pub body : (b : Text) (calls : List WriterCall) → sent (write b ∷ calls) ≡ 200
  pub final :
      (n : ℕ) (calls : List WriterCall) → is_final n ≡ true → sent (write_header n ∷ calls) ≡ n
  pub informational :
      (n : ℕ) (calls : List WriterCall)
      → is_informational n ≡ true
      → sent (write_header n ∷ calls) ≡ sent calls

-- The first call, if there is one, is a write or has a status that ends the header.
abbrev pub starts_final : List WriterCall → Bool
starts_final [] = true
starts_final (write_header n ∷ calls) = is_final n
starts_final (write b ∷ calls) = true

-- the status that the wrapping writer captures at its first call
abbrev first_status : WriterCall → ℕ
first_status (write_header n) = n
first_status (write b) = 200

-- A writer that has passed a call on passes on writes only, and keeps the status.
call_all-written_with :
    (calls : List WriterCall) (c : WriterCall) (more : List WriterCall)
    → (rest : List WriterCall) × (call_all calls
          (record { inner = c ∷ more; status_code = first_status c; written = true })
        ≡ record { inner = c ∷ rest; status_code = first_status c; written = true })
unfolding call_all on_write on_write_header
call_all-written_with [] c more = (more, refl)
call_all-written_with (write_header n ∷ calls) c more = call_all-written_with calls c more
call_all-written_with (write b ∷ calls) c more =
    call_all-written_with calls c (more ++ (write b ∷ []))

-- The outer writer gets the first call of the handler first, and the status of that call is the
-- one that is captured.
call_all-new :
    (c : WriterCall) (calls : List WriterCall)
    → (rest : List WriterCall) × (call_all (c ∷ calls) (new_response_writer [])
        ≡ record { inner = c ∷ rest; status_code = first_status c; written = true })
unfolding call_all on_write on_write_header new_response_writer
call_all-new (write_header n) calls = call_all-written_with calls (write_header n) []
call_all-new (write b) calls = call_all-written_with calls (write b) []

module _ {sent : List WriterCall → ℕ} (H : IsHttp sent) where
  sent-first_status :
      (c : WriterCall) (calls more : List WriterCall)
      → starts_final (c ∷ calls) ≡ true
      → sent (c ∷ more) ≡ first_status c
  sent-first_status (write_header n) calls more h = H.final n more h
  sent-first_status (write b) calls more h = H.body b more

  sent-head :
      (c : WriterCall) (calls more other : List WriterCall)
      → starts_final (c ∷ calls) ≡ true
      → sent (c ∷ more) ≡ sent (c ∷ other)
  sent-head c calls more other h =
      sent-first_status c calls more h ∙ sym (sent-first_status c calls other h)

  -- The status that a client gets is that of the first call of the handler, whether it panics later
  -- or not; of a handler that panics before its first call it is 500. The first call, if there is
  -- one, is a write or has a status from 200 to 999.
  pub recovery_sent :
      (body : Text) (s : Script)
      → starts_final s.calls ≡ true
      → sent (recovery_middleware body s).1
        ≡ (if s.panics && no_calls s.calls then 500 else sent s.calls)
  unfolding recovery_middleware logger_middleware new_response_writer
  recovery_sent body s h = cases s.calls s.panics h
    where
      cases :
          (calls : List WriterCall) (panics : Bool)
          → starts_final calls ≡ true
          → sent (recovery_middleware body (record { calls = calls; panics = panics })).1
            ≡ (if panics && no_calls calls then 500 else sent calls)
      cases [] true h = unfold call_all in H.final 500 (write body ∷ []) refl
      cases [] false h = unfold call_all in refl
      cases (c ∷ calls) true h = rw ((call_all-new c calls).1) (sent-head c calls _ calls h)
      cases (c ∷ calls) false h = rw ((call_all-new c calls).1) (sent-head c calls _ calls h)

  -- The status that is counted for a handler that returns is the status that the client gets; a
  -- handler that panics is not counted.
  pub recovery_counted :
      (body : Text) (s : Script)
      → starts_final s.calls ≡ true
      → (recovery_middleware body s).0
        ≡ (if s.panics then none else some (sent (recovery_middleware body s).1))
  unfolding recovery_middleware logger_middleware new_response_writer
  recovery_counted body s h = cases s.calls s.panics h
    where
      cases :
          (calls : List WriterCall) (panics : Bool)
          → starts_final calls ≡ true
          → let r = recovery_middleware body (record { calls = calls; panics = panics }) in
            r.0 ≡ (if panics then none else some (sent r.1))
      cases [] true h = unfold call_all in refl
      cases [] false h = unfold call_all in ap some (sym H.nothing)
      cases (c ∷ calls) true h = refl
      cases (c ∷ calls) false h =
          rw ((call_all-new c calls).1) (ap some (sym (sent-first_status c calls _ h)))

  -- After an informational status the status that the handler meant is not passed on: the client
  -- gets 200 whatever status follows.
  pub recovery_informational :
      (body : Text) (n status : ℕ)
      → is_informational n ≡ true
      → sent
          (recovery_middleware body
            (record { calls = write_header n ∷ write_header status ∷ []; panics = false })).1
        ≡ 200
  unfolding recovery_middleware logger_middleware new_response_writer call_all on_write_header
  recovery_informational body n status h = H.informational n [] h ∙ H.nothing
