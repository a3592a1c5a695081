-- ===== src/Server/Linking.antt =====
-- internal/server/routes_auth.go, upsertAccount: the account row of a Google identity. New ids,
-- the sealed refresh token and the time are arguments.
pub mod Rows
pub mod Laws
use mera_drive.Base.{
  ℕ, suc, String, Bool, true, false, not, ◌&&◌, ◌||◌, Option, none, some, List, [], ◌∷◌, ◌==◌, any,
  leb, length, if◌then◌else◌,
}
use mera_drive.Base.Result.{Result, ok, err, Act}
use mera_drive.Base.Act.{pure, raise, lift, ◌>>=◌, ◌>>◌}
use mera_drive.Apperr.{
  Code, Message, text, number, Failure, Fault, app, error, plain, fail, fail_with, with_account,
}
use mera_drive.Store.{Scope, AccountStatus, User, Account, Session}
use mera_drive.Google.Tokens.{Token}
use mera_drive.Google.Identity.{Profile}
use mera_drive.Sqlite.Tables.{Tables}
use mera_drive.Sqlite.Users
use mera_drive.Sqlite.Accounts
use mera_drive.Auth.SignIn.{Intent, State}
use mera_drive.Auth.Sessions.{Crypto, or_error, issue, resolve}

abbrev pub max_accounts_per_user : ℕ
max_accounts_per_user = 50

-- What a request draws: new ids, the random token of a session, and the time.
pub record Fresh : Type 0 where
  pub user_id : String
  pub account_id : String
  pub session_id : String
  pub session_token : Result Failure String
  pub now : ℕ

abbrev pub is_missing : Failure → Bool
is_missing Failure.store_not_found = true
is_missing _ = false

abbrev is_taken : Failure → Bool
is_taken Failure.store_conflict = true
is_taken _ = false

abbrev pub is_full : Scope → Bool
is_full Scope.drive_full = true
is_full _ = false

abbrev pub is_file : Scope → Bool
is_file Scope.drive_file = true
is_file _ = false

abbrev pub internal_error : {A : Type 0} → String → Failure → Result Fault A
internal_error what f = fail_with Code.internal what f

-- The row of an account that is linked again.
unfoldable pub refreshed : Profile → Scope → String → Account → Account
refreshed profile scope sealed existing = record existing {
  email = profile.email;
  name = profile.name;
  avatar_url = profile.picture_url;
  status = AccountStatus.connected;
  refresh_token_enc = sealed;
  scope = if is_full scope || is_file existing.scope then scope else existing.scope;
}

unfoldable pub new_account : Fresh → String → Profile → Scope → String → ℕ → Account
new_account fresh user_id profile scope sealed siblings = record {
  id = fresh.account_id;
  user_id = user_id;
  google_user_id = profile.sub;
  email = profile.email;
  name = profile.name;
  avatar_url = profile.picture_url;
  scope = scope;
  status = AccountStatus.connected;
  refresh_token_enc = sealed;
  sort_order = siblings;
  connected_at = fresh.now;
  last_used_at = none;
  updated_at = fresh.now;
}

abbrev pub create_error : Failure → Result Fault (Unit {0})
create_error f =
    if is_taken f
    then fail Code.conflict "That Google account is already connected."
    else internal_error "Could not connect the Google account." f

-- The branch of `upsertAccount` without a row.
unfoldable pub connect : Fresh → String → Profile → Scope → String → Act Tables Fault Account
unfolding or_error new_account
connect fresh user_id profile scope sealed = do
  siblings ←
      or_error (internal_error "Could not read your connected accounts.") (Accounts.list user_id)
  if leb max_accounts_per_user (length siblings)
      then raise (
          app (
            error Code.conflict (record {
              format = "You have reached the limit of %d connected accounts.";
              args = number max_accounts_per_user ∷ [];
            })))
      else do
        or_error create_error
            (Accounts.create (new_account fresh user_id profile scope sealed (length siblings)))
        pure (new_account fresh user_id profile scope sealed (length siblings))

-- The branch with a row.
unfoldable pub refresh : Fresh → Profile → Scope → String → Account → Act Tables Fault Account
unfolding or_error refreshed
refresh fresh profile scope sealed existing = do
  or_error (internal_error "Could not update the connected account.")
      (Accounts.update (refreshed profile scope sealed existing) fresh.now)
  pure (refreshed profile scope sealed existing)

unfoldable pub upsert_account : Fresh → String → Profile → Scope → String → Act Tables Fault Account
unfolding connect refresh
upsert_account fresh user_id profile scope sealed t =
    let (reply, t') = Accounts.get_by_google_id user_id profile.sub t in
    elim reply [
      | ok existing ↦ refresh fresh profile scope sealed existing t'
      | err f ↦
          if is_missing f
          then connect fresh user_id profile scope sealed t'
          else (internal_error "Could not read your connected accounts." f, t')
    ]
