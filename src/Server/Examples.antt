-- ===== src/Server/Examples.antt =====
-- internal/server at concrete inputs: the sample tables.
use mera_drive.Base.{[], ◌∷◌, ◌*◌, ◌≤◌, true, ◌≡◌, refl, arith, ◌<>◌, ◌==◌, String, false}
use mera_drive.Base.Result.{ok, Act}
use mera_drive.Samples.{home, laptop, ravi, tables}
use mera_drive.Sqlite.Tables.{Tables}
use mera_drive.Apperr.{Fault}
use mera_drive.Base.{ℕ, none, some, if◌then◌else◌}
use mera_drive.Apperr.{Code, fail}
use mera_drive.Server.FileRoutes.{Strconv}
use mera_drive.Google.Errors.{second}
use mera_drive.Store.{User, Session, Scope, Account, expired, is_valid_scope}
use mera_drive.Sqlite.Users
use mera_drive.Sqlite.Accounts
use mera_drive.Sqlite.Sessions
use mera_drive.Auth.SignIn.{Intent, State}
use mera_drive.Auth.Sessions.{Crypto, or_error, seen, user_of, resolve}
use mera_drive.Auth.Sessions.{csrf_token, verify_csrf, revoke_all}
use mera_drive.Server.Guard
use mera_drive.Server.Guard.{Method, is_safe, require_csrf, require_session, guarded, logout_all}
use mera_drive.Server.Guard.Laws.{MayReach, guarded-MayReach, guarded-logout_all}
use mera_drive.Google.Identity.{Profile}
use mera_drive.Server.Linking.{Fresh, refreshed, refresh, upsert_account}
use mera_drive.Server.Linking.Rows.{count}
use mera_drive.Server.Linking.Laws.{Linked, count-upsert_account, upsert_account-Linked}
use mera_drive.Server.SignIn.{Request, complete_reconnect, reconnected}
use mera_drive.Server.SignIn.Reconnect.{MayReconnect, complete_reconnect-MayReconnect}

abbrev fresh : Fresh
fresh = record {
  user_id = "u9";
  account_id = "a9";
  session_id = "s9";
  session_token = ok "t9";
  now = 20 * second;
}

abbrev profile : Profile
profile = record {
  sub = "g2";
  email = "home@example.org";
  email_verified = true;
  name = "Asha";
  picture_url = "";
}

count-upsert_account_example :
    count "u1" (upsert_account fresh "u1" profile Scope.drive_file "sealed-9" tables).1 ≤ 50
count-upsert_account_example =
    count-upsert_account fresh "u1" profile Scope.drive_file "sealed-9" tables (omega arith)

abbrev relinked : Account
relinked = record home { refresh_token_enc = "sealed-9"; name = "Asha"; avatar_url = "" }

linked_again :
    (upsert_account fresh "u1" profile Scope.drive_file "sealed-9" tables).0 ≡ ok relinked
unfolding upsert_account refresh refreshed or_error Accounts.get_by_google_id Accounts.update
    is_valid_scope
linked_again = refl

upsert_account-Linked_example :
    Linked "sealed-9"
      (Accounts.get_by_google_id "u1" "g2"
        (upsert_account fresh "u1" profile Scope.drive_file "sealed-9" tables).1).0
upsert_account-Linked_example =
    upsert_account-Linked fresh "u1" profile Scope.drive_file "sealed-9" tables relinked
      linked_again

abbrev crypto : Crypto
crypto = record { hash_token = λ t. "#" <> t; sign_hmac = λ m. "hmac of " <> m; slice = λ n s. s }

abbrev request : Request
request = record { session_cookie = "secret"; user_agent = "browser"; ip = "192.0.2.1" }

abbrev reconnect : State
reconnect = record {
  nonce = "n1";
  intent = Intent.reconnect;
  scope = "drive.file";
  account_id = "a2";
  next = "/";
  issued_at = 0;
}

home_reconnected :
    (complete_reconnect crypto 100 fresh request reconnect profile Scope.drive_file "sealed-9"
      tables).0
    ≡ ok "home@example.org"
unfolding complete_reconnect reconnected resolve or_error user_of seen expired Users.get_by_id
    Sessions.get_by_token_hash Accounts.get Accounts.update is_valid_scope
home_reconnected = refl

complete_reconnect-MayReconnect_example : MayReconnect crypto fresh request reconnect profile tables
complete_reconnect-MayReconnect_example =
    complete_reconnect-MayReconnect crypto 100 fresh request reconnect profile Scope.drive_file
      "sealed-9" "home@example.org" tables home_reconnected

abbrev erasing : Guard.Request
erasing = record {
  method = Method.delete;
  session_cookie = "secret";
  csrf_header = "hmac of csrf:#secret";
}

abbrev phone : Session
phone = record laptop { id = "s2"; user_id = "u2"; token_hash = "#other" }

abbrev two_sessions : Tables
two_sessions = record tables { sessions = laptop ∷ phone ∷ [] }

-- A handler that answers with the id of its user.
abbrev whoami : User × Session → Act Tables Fault String
whoami signed_in t = (ok signed_in.0.id, t)

asha_reached : (guarded crypto erasing (20 * second) whoami two_sessions).0 ≡ ok "u1"
unfolding guarded require_csrf require_session is_safe verify_csrf csrf_token resolve or_error
    user_of seen expired Users.get_by_id Sessions.get_by_token_hash
asha_reached = refl

guarded-MayReach_example : MayReach crypto erasing (20 * second) whoami two_sessions "u1"
guarded-MayReach_example =
    guarded-MayReach crypto erasing (20 * second) whoami two_sessions "u1" asha_reached

asha_still_reached :
    (guarded crypto erasing (20 * second) whoami (logout_all (ravi, phone) two_sessions).1).0
    ≡ ok "u1"
unfolding guarded require_csrf require_session is_safe verify_csrf csrf_token resolve or_error
    user_of seen expired Users.get_by_id Sessions.get_by_token_hash logout_all revoke_all
    Sessions.delete_of_user
asha_still_reached = refl

guarded-logout_all_example :
    (m : MayReach crypto erasing
      (20 * second)
      whoami
      (logout_all (ravi, phone) two_sessions).1
      "u1")
    × ((m.user.id == "u2") ≡ false)
guarded-logout_all_example =
    guarded-logout_all crypto (ravi, phone) erasing (20 * second) whoami two_sessions "u1"
      asha_still_reached

abbrev strconv : Strconv
strconv = record { atoi = λ s. none; parse_bool = λ s. if s == "false" then some false else none }

abbrev no_erase : String → String → Act ℕ Fault (Unit {0})
no_erase token id w = (fail Code.internal "no", w)
