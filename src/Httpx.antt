-- ===== src/Httpx.antt =====
-- internal/httpx/middleware.go and response.go: the envelope of a response, the handler of
-- errors, and the middleware. What Fiber, its limiter, uuid and the texts of Go do comes as
-- arguments; logs are left out.
pub mod Masking
pub mod Origins
mod Examples
use mera_drive.Base.{
  ℕ, String, Bool, true, false, not, ◌&&◌, Option, none, some, List, [], ◌∷◌, ◌==◌, ◌<>◌, any, eqb,
  leb, trim_end, if◌then◌else◌,
}
use mera_drive.Base.Result.{Result, ok, err, Act}
use mera_drive.Base.Act.{◌>>=◌, ◌>>◌}
use mera_drive.Apperr.{Code, Error, Failure, Fault, app, raw, plain, error, with_cause, from, fail}
use mera_drive.Config.{slash}

-- What a handler returns as its error: one of the server's own, or one of Fiber with its status.
pub data Thrown : Type 0 where
  fault : Fault → Thrown
  fiber : ℕ → Failure → Thrown

-- `Envelope`: `Data` with `Meta`, or `Error`.
pub data Envelope (A : Type 0) : Type 0 where
  success : A → String → Envelope A
  failure : Error → String → Envelope A

pub record Reply (A : Type 0) : Type 0 where
  pub status : ℕ
  pub body : Option (Envelope A)

abbrev pub json : {A : Type 0} → ℕ → A → String → Reply A
json status value request_id = record { status = status; body = some (success value request_id) }

abbrev pub created : {A : Type 0} → A → String → Reply A
created value request_id = json 201 value request_id

abbrev pub no_content : {A : Type 0} → Reply A
no_content = record { status = 204; body = none }

abbrev pub masked : Error
masked = error Code.internal (plain "Something went wrong on our side.")

unfoldable pub to_app_error : Thrown → Error
unfolding from error with_cause
to_app_error (fault f) = from f
to_app_error (fiber status f) =
    if eqb status 404
    then error Code.not_found (plain "That endpoint does not exist.")
    else if eqb status 405
    then error Code.bad_request (plain "That method is not allowed on this endpoint.")
    else if eqb status 413
    then error Code.payload_too_large (plain "The request body is too large.")
    else with_cause masked (raw f)

-- `ErrorHandler`
unfoldable pub handle_error : {A : Type 0} → Bool → String → Thrown → Reply A
unfolding to_app_error
handle_error production request_id thrown =
    let found = to_app_error thrown in
    let shown = if leb 500 found.status && production then masked else found in
    record { status = shown.status; body = some (failure shown request_id) }

-- `Recover`: how a handler ends.
pub data Ending (A : Type 0) : Type 0 where
  returned : Result Fault A → Ending A
  panicked : Ending A

unfoldable pub recover : {A : Type 0} → Ending A → Result Fault A
recover (returned r) = r
recover panicked = err (app masked)

-- `RequestID`: the id of the client, when it is a UUID, or a new one.
unfoldable pub request_id : (String → Bool) → String → String → String
request_id is_uuid presented new = if is_uuid presented then presented else new

abbrev pub secure_headers : List (String × String)
secure_headers =
    ("X-Content-Type-Options", "nosniff")
    ∷ ("X-Frame-Options", "DENY")
    ∷ ("Referrer-Policy", "no-referrer")
    ∷ ("Cross-Origin-Resource-Policy", "same-site")
    ∷ ("Content-Security-Policy", "default-src 'none'; frame-ancestors 'none'")
    ∷ ("Permissions-Policy", "geolocation=(), microphone=(), camera=()")
    ∷ []

module _ (to_lower : String → String) where
  -- An origin in lower case, without slashes at its end.
  unfoldable pub normal : String → String
  unfolding trim_end
  normal origin = to_lower (trim_end slash origin)

  abbrev pub grants : String → List (String × String)
  grants origin =
      ("Access-Control-Allow-Origin", origin)
      ∷ ("Access-Control-Allow-Credentials", "true")
      ∷ ("Access-Control-Allow-Headers", "Content-Type, X-CSRF-Token, X-Request-ID")
      ∷ ("Access-Control-Allow-Methods", "GET, POST, PATCH, DELETE, OPTIONS")
      ∷ ("Access-Control-Expose-Headers", "X-Request-ID, Content-Disposition")
      ∷ ("Access-Control-Max-Age", "600")
      ∷ ("Vary", "Origin")
      ∷ []

  -- The headers that `CORS` adds for the header Origin.
  unfoldable pub cors_headers : List String → String → List (String × String)
  unfolding normal
  cors_headers allowed origin =
      if not (normal origin == "") && any (λ o. normal o == normal origin) allowed
      then grants origin
      else []

  -- `CORS`: a preflight request is answered here, and no handler sees it.
  unfoldable pub cors :
      {W A : Type 0}
      → List String
      → String
      → Bool
      → Act W Fault (Reply A)
      → Act W Fault (List (String × String) × Reply A)
  unfolding cors_headers
  cors allowed origin is_options next w =
      let (reply, w') = next w in
      let headers = cors_headers allowed origin in
      if is_options
      then (ok (headers, no_content), w)
      else elim reply [ ok r ↦ (ok (headers, r), w') | err f ↦ (err f, w') ]

-- `KeyGenerator` of `RateLimit`: the session id that the context holds, empty where there is none.
unfoldable pub limit_key : String → String → String
limit_key session_id ip = if session_id == "" then "ip:" <> ip else "session:" <> session_id

-- `LimitReached`
abbrev pub limit_reached : {A : Type 0} → Result Fault A
limit_reached = fail Code.rate_limited "Too many requests. Please slow down and try again shortly."
