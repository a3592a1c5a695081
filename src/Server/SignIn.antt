-- ===== src/Server/SignIn.antt =====
-- internal/server/routes_auth.go: what a completed sign-in does to the tables. The calls to
-- Google are operations of the world; the cookies are left out.
pub mod Reconnect
pub mod Started
use mera_drive.Base.{
  ℕ, suc, String, Bool, true, false, not, ◌&&◌, ◌||◌, Option, none, some, List, [], ◌∷◌, ◌==◌, any,
  leb, length, if◌then◌else◌,
}
use mera_drive.Base.Result.{Result, ok, err, Act}
use mera_drive.Base.Act.{pure, raise, lift, ◌>>=◌, ◌>>◌}
use mera_drive.Apperr.{
  Code, Message, text, number, Failure, Fault, app, error, plain, fail, fail_with, with_account,
}
use mera_drive.Store.{scope_of_text, Scope, AccountStatus, User, Account, Session}
use mera_drive.Google.Tokens.{Token}
use mera_drive.Sqlite.Tables.{Tables}
use mera_drive.Sqlite.Users
use mera_drive.Sqlite.Accounts
use mera_drive.Auth.SignIn.{Intent, State}
use mera_drive.Auth.Sessions.{Crypto, or_error, issue, resolve}
use mera_drive.Google.Identity.{Profile, has_scope, scope_drive_file, scope_drive_full}
use mera_drive.Server.Linking.{Fresh, is_missing, is_full, internal_error, upsert_account}

-- What the request carries: the session cookie, the user agent and the address.
pub record Request : Type 0 where
  pub session_cookie : String
  pub user_agent : String
  pub ip : String

-- The first half of `completeLogin`: the user of an e-mail address, made on first use.
unfoldable pub sign_in : Fresh → Profile → Act Tables Fault User
unfolding or_error
sign_in fresh profile t =
    let (reply, t') = Users.get_by_email profile.email t in
    let new : User = record {
      id = fresh.user_id;
      email = profile.email;
      name = profile.name;
      avatar_url = profile.picture_url;
      created_at = fresh.now;
      updated_at = fresh.now;
    } in
    elim reply [
      | ok user ↦
          if user.name == profile.name && user.avatar_url == profile.picture_url
          then (ok user, t')
          else (do
            or_error (internal_error "Could not update your profile.")
                (Users.update_profile user.id profile.name profile.picture_url fresh.now)
            pure user)
              t'
      | err f ↦
          if is_missing f
          then (do
            or_error (internal_error "Could not create your account.") (Users.create new)
            pure new)
              t'
          else (internal_error "Could not look up your account." f, t')
    ]

abbrev pub lookup_error : {A : Type 0} → Failure → Result Fault A
lookup_error f =
    if is_missing f
    then fail Code.not_found "That connected account does not exist."
    else internal_error "Could not read the connected account." f

unfoldable pub reconnected : Profile → Scope → String → Account → Account
reconnected profile scope sealed account = record account {
  email = profile.email;
  name = profile.name;
  avatar_url = profile.picture_url;
  scope = scope;
  status = AccountStatus.connected;
  refresh_token_enc = sealed;
}

-- `driveScopeURL`
abbrev pub drive_scope_url : Scope → String
drive_scope_url scope = if is_full scope then scope_drive_full else scope_drive_file

-- What is checked between the exchange and the branch on the intent.
unfoldable pub admit : State → Token → Profile → Result Fault (Unit {0})
admit state token profile =
    if not profile.email_verified
    then fail Code.forbidden "This Google account's email address is not verified."
    else if not (has_scope token (drive_scope_url (scope_of_text state.scope)))
    then fail Code.insufficient_scope
        "The requested Drive permission was not granted. Please approve it to continue."
    else ok tt

-- What is outside: two calls to Google and the seal of the keyring.
pub record Outside (W : Type 0) : Type 0 where
  pub exchange : String → Act W Fault Token
  pub profile : String → Act W Fault Profile
  pub seal_refresh_token : String → Result Fault String

pub record Site (W : Type 0) : Type 0 where
  pub tables : Tables
  pub world : W

module _ (crypto : Crypto) (ttl : ℕ) (fresh : Fresh) (request : Request) where
  -- The result is the e-mail address of `oauthResult`; the cookies are left out.
  unfoldable pub complete_login : Profile → Scope → String → Act Tables Fault String
  unfolding sign_in upsert_account
  complete_login profile scope sealed = do
    user ← sign_in fresh profile
    _ ← upsert_account fresh user.id profile scope sealed
    _ ←
        issue crypto fresh.session_token fresh.session_id user.id request.user_agent request.ip
          fresh.now ttl
    pure profile.email

  unfoldable pub complete_link : Profile → Scope → String → Act Tables Fault String
  unfolding upsert_account
  complete_link profile scope sealed = do
    signed_in ← resolve crypto request.session_cookie fresh.now
    _ ← upsert_account fresh signed_in.0.id profile scope sealed
    pure profile.email

  unfoldable pub complete_reconnect : State → Profile → Scope → String → Act Tables Fault String
  unfolding or_error reconnected
  complete_reconnect state profile scope sealed = do
    signed_in ← resolve crypto request.session_cookie fresh.now
    account ← or_error lookup_error (Accounts.get signed_in.0.id state.account_id)
    if not (account.google_user_id == profile.sub)
        then raise (
            app (
              with_account
                (error Code.conflict (record {
                  format =
                      "You signed in as %s, but this card belongs to %s. Choose the matching Google account.";
                  args = text profile.email ∷ text account.email ∷ [];
                }))
                account.id))
        else do
          or_error (internal_error "Could not update the connected account.")
              (Accounts.update (reconnected profile scope sealed account) fresh.now)
          pure profile.email

  -- The branch on the intent.
  unfoldable pub complete : State → Profile → Scope → String → Act Tables Fault String
  unfolding complete_login complete_link complete_reconnect
  complete state profile scope sealed = elim state.intent [
    | Intent.login ↦ complete_login profile scope sealed
    | Intent.link ↦ complete_link profile scope sealed
    | Intent.reconnect ↦ complete_reconnect state profile scope sealed
    | Intent.upgrade ↦ complete_reconnect state profile scope sealed
    | Intent.unknown i ↦ raise (
        app (
          error Code.bad_request
            (record { format = "Unknown sign-in intent %q."; args = text i ∷ [] })))
  ]

  module _ {W : Type 0} (out : Outside W) where
    abbrev on_world : {A : Type 0} → Act W Fault A → Act (Site W) Fault A
    on_world call s = let (reply, w) = call s.world in (reply, record s { world = w })

    abbrev on_tables : {A : Type 0} → Act Tables Fault A → Act (Site W) Fault A
    on_tables call s = let (reply, t) = call s.tables in (reply, record s { tables = t })

    unfoldable pub complete_oauth : State → String → Act (Site W) Fault String
    unfolding complete admit
    complete_oauth state code = do
      token ← on_world (out.exchange code)
      if token.refresh_token == ""
          then raise (
              app (
                error Code.bad_request (
                  plain
                    "Google did not return a refresh token. Remove SangamDrive at myaccount.google.com/permissions and connect the account again.")))
          else do
            profile ← on_world (out.profile token.access_token)
            lift (admit state token profile)
            sealed ← lift (out.seal_refresh_token token.refresh_token)
            on_tables (complete state profile (scope_of_text state.scope) sealed)
