-- ===== src/Server/Routes/Examples.antt =====
-- internal/server/server.go at concrete inputs: a request without the CSRF token, and paths
-- without parameters.
use mera_drive.Base.{
  String, true, false, Option, none, ◌≡◌, ◌≢◌, refl, arith, ◌==◌, eq_iff, starts_with,
  if◌then◌else◌,
}
use mathlib.Core.Path.{subst}
use mera_drive.Base.Result.{Result, ok, err, Act}
use mera_drive.Apperr.{Code, Fault, fail}
use mera_drive.Sqlite.Tables.{Tables}
use mera_drive.Samples.{tables}
use mera_drive.Auth.Sessions.{verify_csrf, csrf_token}
use mera_drive.Server.Guard
use mera_drive.Server.Guard.{Method, is_safe, require_csrf}
use mera_drive.Server.Start.Examples.{crypto}
use mera_drive.Server.Routes.{Middleware, Handler, Router, stack, serve}
use mera_drive.Server.Routes.Guards.{Groups, protects, serve-Shuts}

abbrev router : Router
router = record {
  under = λ prefix path. starts_with path prefix;
  matches = λ k pattern method path. pattern == path;
}

groups : Groups router
groups = record {
  covers = λ k pattern method path prefix same starts.
      subst (λ p. starts_with p prefix ≡ true) ((eq_iff pattern path).0 same) starts;
}

abbrev forged : Guard.Request
forged = record { method = Method.post; session_cookie = "secret"; csrf_header = "guess" }

abbrev passes : Result Fault (Unit {0}) → Result Fault (Option String)
passes (ok _) = ok none
passes (err f) = err f

abbrev run : Middleware → Act Tables Fault (Option String)
run Middleware.require_csrf t = (passes (require_csrf crypto forged), t)
run _ t = (ok none, t)

forged_refused : (t : Tables) → (run Middleware.require_csrf t).0 ≢ ok none
unfolding require_csrf is_safe verify_csrf csrf_token
forged_refused t e = absurd (ground arith)

abbrev answer : Handler → Act Tables Fault String
answer h t = (ok "done", t)

abbrev answer' : Handler → Act Tables Fault String
answer' h t = (if protects Middleware.require_csrf h then fail Code.internal "no" else ok "done", t)

agree :
    (h : Handler)
    → protects Middleware.require_csrf h ≡ false
    → (t : Tables) → answer h t ≡ answer' h t
agree h e t = rw e refl

serve-Shuts_example :
    serve router run answer Method.post "/api/v1/auth/logout" stack tables
    ≡ serve router run answer' Method.post "/api/v1/auth/logout" stack tables
serve-Shuts_example =
    serve-Shuts router groups run answer answer' Method.post "/api/v1/auth/logout"
      Middleware.require_csrf forged_refused agree tables
