-- ===== src/Apperr.antt =====
-- pkg/apperr/apperr.go: codes, wrapping and HTTP statuses, over the error values of Go.
use Prim.Native.Nat.{ℕ}
use mathlib.Core.List.{◌++◌}
use mathlib.Core.Option.{Option, none, some}
use blindvault.Base.{refl, ◌≡◌, Text, bytes}

-- apperr.Code; `other` is any string that is not one of the constants.
pub data Code : Type 0 where
  invalid_argument not_found already_exists unauthorized : Code
  forbidden internal unavailable too_many_request : Code
  other : Text → Code

-- `plain` is an error without a cause: errors.New, ctx.Err(), an error of a library.
-- `wrapped` is fmt.Errorf("%s: %w"); `app` and `app_wrap` are *apperr.Error without and with a
-- wrapped error.
pub data GoError : Type 0 where
  plain : Text → GoError
  wrapped : Text → GoError → GoError
  app : Code → Text → GoError
  app_wrap : Code → Text → GoError → GoError

-- err.Error()
unfoldable pub message : GoError → Text
message (plain t) = t
message (wrapped t e) = t ++ (bytes ": " ++ message e)
message (app c t) = t
message (app_wrap c t e) = t ++ (bytes ": " ++ message e)

-- errors.As(err, &e) for e of type *apperr.Error: the first such error of the chain
unfoldable pub as_app : GoError → Option GoError
as_app (plain t) = none
as_app (wrapped t e) = as_app e
as_app (app c t) = some (app c t)
as_app (app_wrap c t e) = some (app_wrap c t e)

-- apperr.CodeOf, at an error that is not nil
unfoldable pub code_of : GoError → Code
code_of (plain t) = internal
code_of (wrapped t e) = code_of e
code_of (app c t) = c
code_of (app_wrap c t e) = c

-- Code.HTTPStatus
unfoldable pub http_status : Code → ℕ
http_status invalid_argument = 400
http_status unauthorized = 401
http_status forbidden = 403
http_status not_found = 404
http_status already_exists = 409
http_status unavailable = 503
http_status too_many_request = 429
http_status internal = 500
http_status (other t) = 500

-- The result of a Go function that returns a value and an error.
pub data Result {ℓ} (A : Type ℓ) : Type ℓ where
  ok : A → Result A
  err : GoError → Result A

-- `if err != nil { return nil, f(err) }`
abbrev pub map_err {ℓ} : {A : Type ℓ} → (GoError → GoError) → Result A → Result A
map_err f (ok a) = ok a
map_err f (err e) = err (f e)

-- The rest of a function, behind `if err != nil { return nil, err }`.
infixl 5 ◌>>=◌
abbrev pub ◌>>=◌ {ℓ κ} : {A : Type ℓ} {B : Type κ} → Result A → (A → Result B) → Result B
err failure >>= next = err failure
ok result >>= next = next result

-- `if err := ...; err != nil { return nil, f(err) }` for a call that returns only an error
abbrev pub check : Option GoError → (GoError → GoError) → Result (Unit {0})
check none f = ok tt
check (some e) f = err (f e)

-- A chain that ends without an error had none on the way.
pub ok_of_bind {ℓ κ} :
    {A : Type ℓ} {B : Type κ} (call : Result A) (next : A → Result B) {result : B}
    → (call >>= next) ≡ ok result
    → (value : A) × (call ≡ ok value) × (next value ≡ ok result)
ok_of_bind (ok value) next h = (value, refl, h)
ok_of_bind (err failure) next h = cc

pub ok_of_map_err {ℓ} :
    {A : Type ℓ} (f : GoError → GoError) (m : Result A) {a : A} → map_err f m ≡ ok a → m ≡ ok a
ok_of_map_err f (ok a) h = h
ok_of_map_err f (err e) h = cc
