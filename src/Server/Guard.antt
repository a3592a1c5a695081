-- ===== src/Server/Guard.antt =====
-- internal/server/middleware_auth.go and the groups of internal/server/server.go: what stands
-- before every handler that needs a session, and the two handlers of routes_auth.go that end
-- sessions. The cookies are left out.
pub mod Laws
use mera_drive.Base.{ℕ, String, Bool, true, false, not, ◌==◌, if◌then◌else◌}
use mera_drive.Base.Result.{Result, ok, err, Act}
use mera_drive.Base.Act.{lift, ◌>>=◌, ◌>>◌}
use mera_drive.Apperr.{Code, Fault, fail}
use mera_drive.Store.{User, Session}
use mera_drive.Sqlite.Tables.{Tables}
use mera_drive.Auth.Sessions.{Crypto, resolve, verify_csrf, revoke, revoke_all}

pub data Method : Type 0 where
  get head options post put patch delete : Method
  other : String → Method

-- What the two middlewares read of a request.
pub record Request : Type 0 where
  pub method : Method
  pub session_cookie : String
  pub csrf_header : String

-- The `switch` of `requireCSRF`.
unfoldable pub is_safe : Method → Bool
is_safe Method.get = true
is_safe Method.head = true
is_safe Method.options = true
is_safe _ = false

module _ (crypto : Crypto) where
  unfoldable pub require_csrf : Request → Result Fault (Unit {0})
  unfolding is_safe verify_csrf
  require_csrf request =
      if is_safe request.method
      then ok tt
      else if request.session_cookie == ""
      then fail Code.unauthorized "You are not signed in."
      else if not (verify_csrf crypto request.session_cookie request.csrf_header)
      then fail Code.csrf
          "This request could not be verified. Please reload the page and try again."
      else ok tt

  -- `requireSession`, with the handler behind it.
  unfoldable pub require_session :
      {A : Type 0} → Request → ℕ → (User × Session → Act Tables Fault A) → Act Tables Fault A
  unfolding resolve
  require_session request now handler = do
    signed_in ← resolve crypto request.session_cookie now
    handler signed_in

  -- A handler of a group with both middlewares, in the order in which they are mounted.
  unfoldable pub guarded :
      {A : Type 0} → Request → ℕ → (User × Session → Act Tables Fault A) → Act Tables Fault A
  unfolding require_csrf require_session
  guarded request now handler = do lift (require_csrf request); require_session request now handler

-- `handleLogout` and `handleLogoutAll`
unfoldable pub logout : User × Session → Act Tables Fault (Unit {0})
unfolding revoke
logout signed_in = revoke signed_in.1.id

unfoldable pub logout_all : User × Session → Act Tables Fault (Unit {0})
unfolding revoke_all
logout_all signed_in = revoke_all signed_in.0.id
