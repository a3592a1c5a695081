-- ===== src/Apperr.antt =====
-- internal/apperr/apperr.go: the one error type that crosses the HTTP boundary. A message keeps its
-- format and its arguments apart (fmt.Sprintf is not run). A cause is the root of its chain.
use mera_drive.Base.{ℕ, String, Bool, true, false, Option, none, some, List, [], ◌∷◌}
use mera_drive.Base.Int.{ℤ}
use mera_drive.Base.Result.{Result, err}

pub data Code : Type 0 where
  bad_request validation unauthorized csrf forbidden not_found conflict : Code
  payload_too_large rate_limited internal : Code
  reauth_required insufficient_scope quota_exceeded upstream_unavailable : Code

-- An argument of a message: a text, a number or an integer.
pub data Arg : Type 0 where
  text : String → Arg
  number : ℕ → Arg
  integer : ℤ → Arg

pub record Message : Type 0 where
  pub format : String
  pub args : List Arg

-- Errors that are not application errors: those of the store, of a context, and any other.
pub data Failure : Type 0 where
  store_not_found store_conflict canceled deadline_exceeded : Failure
  other : String → Failure

-- The details that the server attaches are numbers.
pub record Error : Type 0 where
  pub code : Code
  pub message : Message
  pub status : ℕ
  pub details : List (String × ℕ)
  pub account_id : String
  pub cause : Option Failure

-- Go's `error`, when it is not nil.
pub data Fault : Type 0 where
  app : Error → Fault
  raw : Failure → Fault

abbrev pub plain : String → Message
plain format = record { format = format; args = [] }

unfoldable pub newf : Code → ℕ → Message → Error
newf code status message = record {
  code = code;
  message = message;
  status = status;
  details = [];
  account_id = "";
  cause = none;
}

-- The HTTP status of each constructor.
abbrev pub status_of : Code → ℕ
status_of Code.bad_request = 400
status_of Code.validation = 422
status_of Code.unauthorized = 401
status_of Code.csrf = 403
status_of Code.forbidden = 403
status_of Code.not_found = 404
status_of Code.conflict = 409
status_of Code.payload_too_large = 413
status_of Code.rate_limited = 429
status_of Code.internal = 500
status_of Code.reauth_required = 401
status_of Code.insufficient_scope = 403
status_of Code.quota_exceeded = 507
status_of Code.upstream_unavailable = 502

-- BadRequest, Validation, …, UpstreamUnavailable: one constructor for each code.
unfoldable pub error : Code → Message → Error
unfolding newf
error code message = newf code (status_of code) message

unfoldable pub root_cause : Fault → Option Failure
root_cause (app e) = e.cause
root_cause (raw f) = some f

unfoldable pub with_cause : Error → Fault → Error
unfolding root_cause
with_cause e f = record e { cause = root_cause f }

-- A write to the map: the new value stands before an older one of the same key.
unfoldable pub with_detail : Error → String → ℕ → Error
with_detail e key value = record e { details = (key, value) ∷ e.details }

unfoldable pub with_account : Error → String → Error
with_account e id = record e { account_id = id }

unfoldable pub from : Fault → Error
unfolding error with_cause
from (app e) = e
from (raw f) = with_cause (error Code.internal (plain "Something went wrong on our side.")) (raw f)

unfoldable pub is_retryable_code : Code → Bool
is_retryable_code Code.rate_limited = true
is_retryable_code Code.upstream_unavailable = true
is_retryable_code _ = false

unfoldable pub is_retryable : Fault → Bool
unfolding is_retryable_code from
is_retryable f = is_retryable_code (from f).code

abbrev pub is_reauth_required : Code → Bool
is_reauth_required Code.reauth_required = true
is_reauth_required _ = false

-- A failing call of the server's own code.
abbrev pub fail {ℓ} : {A : Type ℓ} → Code → String → Result Fault A
fail code format = err (app (error code (plain format)))

abbrev pub fail_with {ℓ} : {A : Type ℓ} → Code → String → Failure → Result Fault A
fail_with code format f = err (app (with_cause (error code (plain format)) (raw f)))

-- `tagged` of internal/accounts/service.go and internal/files/service.go: the copy of an error
-- that names its account.
unfoldable pub tagged : Fault → String → Error
unfolding from with_account
tagged f account_id = record (from f) { account_id = account_id }

-- `compact` of the same files: the errors of the slots that have one.
unfoldable pub compact : List (Option Error) → List Error
compact [] = []
compact (none ∷ slots) = compact slots
compact (some e ∷ slots) = e ∷ compact slots
