-- ===== src/Server/Start.antt =====
-- internal/server/routes_auth.go, handleAuthStart: the way to Google's consent screen.
pub mod Laws
pub mod Examples
use mera_drive.Base.{
  ℕ, String, Bool, true, false, not, ◌&&◌, ◌||◌, List, [], ◌∷◌, ◌++◌, ◌==◌, trim_space,
  if◌then◌else◌,
}
use mera_drive.Base.Result.{Result, ok, err, Act}
use mera_drive.Base.Act.{pure, raise, lift, ◌>>=◌, ◌>>◌}
use mera_drive.Apperr.{Code, Failure, Fault, Arg, text, app, error, fail}
use mera_drive.Store.{scope_of_text, Scope, is_valid_scope}
use mera_drive.Sqlite.Tables.{Tables}
use mera_drive.Sqlite.Accounts
use mera_drive.Google.Identity.{identity_scopes}
use mera_drive.Auth.SignIn.{
  Intent, State, Signer, is_valid_intent, requires_session, requires_account, sign_state,
}
use mera_drive.Auth.Next.{safe_next}
use mera_drive.Auth.Cookies.{Cookie, CookieOptions, set_state_cookie}
use mera_drive.Auth.Sessions.{Crypto, or_error, resolve}
use mera_drive.Server.Linking.{is_full}
use mera_drive.Server.SignIn.{lookup_error, drive_scope_url}

-- `auth.Intent(s)`
abbrev pub intent_of_text : String → Intent
intent_of_text s =
    if s == "login"
    then Intent.login
    else if s == "link"
    then Intent.link
    else if s == "reconnect"
    then Intent.reconnect
    else if s == "upgrade"
    then Intent.upgrade
    else Intent.unknown s

abbrev pub is_upgrade : Intent → Bool
is_upgrade Intent.upgrade = true
is_upgrade _ = false

-- What the handler reads of the request; a parameter that is not given is empty.
pub record StartRequest : Type 0 where
  pub session_cookie : String
  pub intent : String
  pub scope : String
  pub account_id : String
  pub next : String

-- A response that sends the browser elsewhere (302), with the cookies that it sets.
pub record Redirect : Type 0 where
  pub location : String
  pub cookies : List Cookie

-- `c.Query(key, default)`
abbrev query_or : String → String → String
query_or value default = if value == "" then default else value

abbrev pub intent_of : StartRequest → Intent
intent_of r = intent_of_text (trim_space (query_or r.intent "login"))

abbrev pub scope_of : StartRequest → Scope
scope_of r = scope_of_text (trim_space (query_or r.scope "drive.file"))

abbrev pub account_of : StartRequest → String
account_of r = trim_space r.account_id

abbrev refuse : String → String → Result Fault (Unit {0})
refuse format arg =
    err (app (error Code.bad_request (record { format = format; args = text arg ∷ [] })))

-- The checks on the parameters alone.
unfoldable pub check_parameters : StartRequest → Result Fault (Unit {0})
check_parameters r =
    if not (is_valid_intent (intent_of r))
    then refuse "Unknown sign-in intent %q." (trim_space (query_or r.intent "login"))
    else if not (is_valid_scope (scope_of r))
    then refuse "Unknown permission level %q." (trim_space (query_or r.scope "drive.file"))
    else if is_upgrade (intent_of r) && not (is_full (scope_of r))
    then fail Code.bad_request "Upgrading permissions requires the full Drive scope."
    else if requires_account (intent_of r) && account_of r == ""
    then refuse "account_id is required to %s an account." (trim_space (query_or r.intent "login"))
    else ok tt

-- The state that is signed, with the scope as its text.
abbrev pub state_of : StartRequest → State
state_of r = record {
  nonce = "";
  intent = intent_of r;
  scope = trim_space (query_or r.scope "drive.file");
  account_id = account_of r;
  next = safe_next r.next;
  issued_at = 0;
}

module _ (crypto : Crypto) where
  -- Who may start: the target has to be an account of the signed-in user.
  unfoldable pub check_target : StartRequest → ℕ → Act Tables Fault (Unit {0})
  unfolding or_error
  check_target r now = if not (requires_session (intent_of r)) then pure tt else do
    signed_in ← resolve crypto r.session_cookie now
    if account_of r == ""
        then pure tt
        else do _ ← or_error lookup_error (Accounts.get signed_in.0.id (account_of r)); pure tt

  -- The random nonce, or why there is none, and the time are arguments; so is `AuthCodeURL`.
  unfoldable pub handle_auth_start :
      Signer
      → CookieOptions
      → (String → List String → String)
      → Result Failure String
      → StartRequest
      → ℕ
      → Act Tables Fault Redirect
  handle_auth_start signer options auth_code_url nonce r now = do
    lift (check_parameters r)
    check_target r now
    signed ← lift (sign_state signer nonce now (state_of r))
    pure (record {
      location = auth_code_url signed.0 (identity_scopes ++ drive_scope_url (scope_of r) ∷ []);
      cookies = set_state_cookie options signed.1 now;
    })
