-- ===== src/Server/SignIn/Reconnect.antt =====
-- internal/server/routes_auth.go, completeReconnect: whose credentials may be replaced, and by
-- whose.
use mera_drive.Base.{
  ℕ, String, true, ◌≡◌, inl, inr, arith, ◌==◌, find_first, Elem, Bool-cases, Option-cases,
}
use mera_drive.Base.Result.{ok, Result-cases}
use mera_drive.Store.{Scope, User, Account, Session}
use mera_drive.Sqlite.Tables.{Tables}
use mera_drive.Sqlite.Rows.{find_first-Elem}
use mera_drive.Sqlite.Accounts
use mera_drive.Auth.SignIn.{State}
use mera_drive.Auth.Sessions.{Crypto, or_error, resolve}
use mera_drive.Auth.Sessions.Laws.{Opens, resolve-Opens}
use mera_drive.Google.Identity.{Profile}
use mera_drive.Server.Linking.{Fresh}
use mera_drive.Server.SignIn.{Request, complete_reconnect}

-- A user whom the session cookie opens, and an account of that user to reconnect.
pub record MayReconnect (crypto : Crypto) (fresh : Fresh) (request : Request) (state : State)
    (profile : Profile) (t : Tables) : Type 0 where
  pub user : User
  pub session : Session
  pub opens : Opens crypto request.session_cookie fresh.now t user session
  pub account : Account
  pub stored : Elem account (resolve crypto request.session_cookie fresh.now t).1.accounts
  pub row : Accounts.is_row user.id state.account_id account ≡ true
  pub same_identity : (account.google_user_id == profile.sub) ≡ true

-- A reconnection succeeds only for a user whom the session cookie opens, on an account of that
-- user with the id that the signed state names, and only when the Google identity that signed in
-- is the account's.
pub complete_reconnect-MayReconnect :
    (crypto : Crypto) (ttl : ℕ) (fresh : Fresh) (request : Request) (state : State)
    (profile : Profile) (scope : Scope) (sealed email : String) (t : Tables)
    → (complete_reconnect crypto ttl fresh request state profile scope sealed t).0 ≡ ok email
    → MayReconnect crypto fresh request state profile t
unfolding complete_reconnect or_error Accounts.get
complete_reconnect-MayReconnect crypto ttl fresh request state profile scope sealed email t h =
    elim (Result-cases (resolve crypto request.session_cookie fresh.now t).0) [
      | inr (f, e) ↦ absurd (ground arith)
      | inl ((u, s), e) ↦
          let t' = (resolve crypto request.session_cookie fresh.now t).1 in
          elim (Option-cases (find_first (Accounts.is_row u.id state.account_id) t'.accounts)) [
            | inl f ↦ absurd (ground arith)
            | inr (a, f) ↦ elim (Bool-cases (a.google_user_id == profile.sub)) [
              | inr g ↦ absurd (ground arith)
              | inl g ↦
                  let (stored, row) =
                    find_first-Elem (Accounts.is_row u.id state.account_id) t'.accounts a f in
                  record {
                    user = u;
                    session = s;
                    opens = resolve-Opens crypto request.session_cookie fresh.now t u s e;
                    account = a;
                    stored = stored;
                    row = row;
                    same_identity = g;
                  }
            ]
          ]
    ]
