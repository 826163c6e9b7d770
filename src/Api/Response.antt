-- ===== src/Api/Response.antt =====
-- internal/api/response.go and writer.go: what is written as a response.
use blindvault.Base.{ℕ, ◌≤◌, ◌<◌, ◌≡◌, ◌⊎◌, Bool, List, Text, bytes, leb, if◌then◌else◌, arith}
use blindvault.Apperr.{GoError, Code, invalid_argument, code_of, http_status, message}
use blindvault.Service.Credentials.{IssueResult}
use blindvault.Storage.{RevocationEntry}

-- the data of a response body, before it becomes JSON
pub data Payload : Type 0 where
  -- ErrorResponse: the message and the code
  error_body : Text → ℕ → Payload
  -- IssueResponse
  issue_body : IssueResult → Payload
  -- ConsumeResponse
  consume_body : Bool → Text → Payload
  -- {"status": ...}, {"ticket_id": ...}, {"ciphertext": ...}
  status_body ticket_body ciphertext_body : Text → Payload
  revocations_body : List RevocationEntry → Payload
  -- what promhttp writes
  metrics_body : Payload

pub record Response : Type 0 where
  pub status : ℕ
  pub payload : Payload

-- http.StatusText at the statuses of apperr from 500 up
unfoldable pub status_text : ℕ → Text
status_text n = if leb n 500 then bytes "Internal Server Error" else bytes "Service Unavailable"

-- respondErr, with respondError
unfoldable pub respond_err : GoError → Response
unfolding status_text http_status
respond_err e =
    let status : ℕ = http_status (code_of e) in
    if leb 500 status
    then record { status = status; payload = error_body (status_text status) status }
    else record { status = status; payload = error_body (message e) status }

-- respondJSON, for data that can be encoded
unfoldable pub respond_json : ℕ → Payload → Response
respond_json status payload = record { status = status; payload = payload }

http_status_range : (c : Code) → (400 ≤ http_status c) × (http_status c < 600)
unfolding http_status
http_status_range invalid_argument = omega arith
http_status_range _ = omega arith

-- An error response has a status from 400 to 599. From 500 up its text is that of the status and
-- tells nothing of the error; below, it is the message of the error.
pub respond_err_hides :
    (e : GoError)
    → (400 ≤ (respond_err e).status)
      × ((respond_err e).status < 600)
      × (((respond_err e).status < 500)
            × ((respond_err e).payload ≡ error_body (message e) (respond_err e).status)
          ⊎ (500 ≤ (respond_err e).status)
            × ((respond_err e).payload
                ≡ error_body (status_text (respond_err e).status) (respond_err e).status))
unfolding respond_err
respond_err_hides e = ground (arith, http_status_range (code_of e))
