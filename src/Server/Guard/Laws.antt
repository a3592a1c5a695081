-- ===== src/Server/Guard/Laws.antt =====
-- internal/server/middleware_auth.go: which requests reach a handler.
use mera_drive.Base.{ℕ, true, false, ◌≡◌, ◌≢◌, ◌⊎◌, inl, inr, arith, eq_iff, ◌==◌, Bool-cases}
use mera_drive.Base.Result.{ok, Act, Result-cases}
use mera_drive.Apperr.{Fault}
use mera_drive.Store.{User, Session}
use mera_drive.Sqlite.Tables.{Tables}
use mera_drive.Auth.Sessions.{Crypto, resolve, csrf_token, verify_csrf}
use mera_drive.Auth.Sessions.Laws.{Opens, resolve-Opens, Opens-revoke_all}
use mera_drive.Server.Guard.{Request, is_safe, require_csrf, require_session, guarded, logout_all}

-- A request that may reach a handler, with what the handler is given and what it answers.
pub record MayReach {A : Type 0} (crypto : Crypto) (request : Request) (now : ℕ)
    (handler : User × Session → Act Tables Fault A) (t : Tables) (a : A) : Type 0 where
  pub user : User
  pub session : Session
  pub opens : Opens crypto request.session_cookie now t user session
  pub genuine :
      (is_safe request.method ≡ true)
      ⊎ ((request.csrf_header ≢ "")
          × (csrf_token crypto request.session_cookie ≡ request.csrf_header))
  pub answer : (handler (user, session) (resolve crypto request.session_cookie now t).1).0 ≡ ok a

require_csrf-ok :
    (crypto : Crypto) (request : Request)
    → require_csrf crypto request ≡ ok tt
    → (is_safe request.method ≡ true)
      ⊎ ((request.csrf_header ≢ "")
          × (csrf_token crypto request.session_cookie ≡ request.csrf_header))
unfolding require_csrf verify_csrf
require_csrf-ok crypto request h = elim (Bool-cases (is_safe request.method)) [
  | inl e ↦ inl e
  | inr e ↦ inr (
      ground (
        arith,
        eq_iff request.csrf_header "",
        eq_iff (csrf_token crypto request.session_cookie) request.csrf_header,
      ))
]

-- A guarded handler answers without an error only to a request whose session cookie opens a
-- session, and which is a GET, HEAD or OPTIONS or carries the CSRF token of that very cookie; the
-- handler is given the user and the session that the cookie opens, and its answer is the answer.
pub guarded-MayReach :
    {A : Type 0} (crypto : Crypto) (request : Request) (now : ℕ)
    (handler : User × Session → Act Tables Fault A) (t : Tables) (a : A)
    → (guarded crypto request now handler t).0 ≡ ok a
    → MayReach crypto request now handler t a
unfolding guarded require_session
guarded-MayReach crypto request now handler t a h =
    elim (Result-cases (require_csrf crypto request)) [
      | inr (f, c) ↦ absurd (ground arith)
      | inl (x, c) ↦ elim (Result-cases (resolve crypto request.session_cookie now t).0) [
        | inr (f, e) ↦ absurd (ground arith)
        | inl ((u, s), e) ↦ record {
          user = u;
          session = s;
          opens = resolve-Opens crypto request.session_cookie now t u s e;
          genuine = require_csrf-ok crypto request c;
          answer = ground arith;
        }
      ]
    ]

-- After a user has signed out everywhere, a guarded handler that answers without an error answers
-- to a request that may reach it, and the user whom it was given is another one.
pub guarded-logout_all :
    {A : Type 0} (crypto : Crypto) (signed_in : User × Session) (request : Request) (now : ℕ)
    (handler : User × Session → Act Tables Fault A) (t : Tables) (a : A)
    → (guarded crypto request now handler (logout_all signed_in t).1).0 ≡ ok a
    → (m : MayReach crypto request now handler (logout_all signed_in t).1 a) × ((m.user.id
          == signed_in.0.id)
        ≡ false)
unfolding logout_all
guarded-logout_all crypto signed_in request now handler t a h =
    let m = guarded-MayReach crypto request now handler (logout_all signed_in t).1 a h in
    (
      m,
      Opens-revoke_all crypto request.session_cookie signed_in.0.id now t m.user m.session m.opens,
    )
