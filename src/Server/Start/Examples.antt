-- ===== src/Server/Start/Examples.antt =====
-- internal/server/routes_auth.go, handleAuthStart, at concrete inputs: asha links another account.
use mera_drive.Base.{
  ◌*◌, String, true, false, ◌≡◌, ◌≢◌, refl, arith, none, some, List, [], ◌∷◌, ◌++◌, ◌==◌, ◌<>◌,
  contains_any, eq_iff, trim_space, trim_left, trim_right, is_space, if◌then◌else◌,
}
use mera_drive.Base.Result.{ok}
use mera_drive.Samples.{tables}
use mera_drive.Google.Errors.{second}
use mera_drive.Google.Identity.{identity_scopes}
use mera_drive.Store.{is_valid_scope, expired}
use mera_drive.Sqlite.Users
use mera_drive.Sqlite.Sessions
use mera_drive.Auth.Next.{safe_next}
use mera_drive.Auth.Cookies.{CookieOptions, set_state_cookie}
use mera_drive.Auth.Sessions.{Crypto, or_error, seen, user_of, resolve}
use mera_drive.Auth.SignIn.{
  State, Signer, is_valid_intent, requires_session, requires_account, stamped, sign_state,
  verify_state,
}
use mera_drive.Auth.SignIn.Trip.{RoundTrips}
use mera_drive.Server.SignIn.{drive_scope_url}
use mera_drive.Server.Start.{
  StartRequest, Redirect, scope_of, state_of, check_parameters, check_target, handle_auth_start,
}
use mera_drive.Server.Start.Laws.{
  MayStart, handle_auth_start-MayStart, verify_state-handle_auth_start,
}

abbrev pub crypto : Crypto
crypto = record { hash_token = λ t. "#" <> t; sign_hmac = λ m. "hmac of " <> m; slice = λ n s. s }

abbrev pub options : CookieOptions
options = record { domain = ""; secure = true }

abbrev pub link : StartRequest
link = record {
  session_cookie = "secret";
  intent = "link";
  scope = "drive";
  account_id = "";
  next = "/settings";
}

abbrev pub signed : State
signed = stamped (state_of link) "n1" (5 * second)

-- One payload is known, by the name "state".
abbrev pub signer : Signer
signer = record {
  sign_hmac = λ m. "hmac of " <> m;
  marshal = λ s. ok "state";
  unmarshal = λ payload. if payload == "state" then some signed else none;
  encode_string = λ payload. payload;
  decode_string = λ encoded. some encoded;
}

abbrev pub token : String
token = "state" <> "." <> "hmac of state"

abbrev consent : String → List String → String
consent state scopes = "https://accounts.google.com/?state=" <> state

abbrev sent : Redirect
sent = record { location = consent token []; cookies = set_state_cookie options "n1" (5 * second) }

link_started :
    (handle_auth_start crypto signer options consent (ok "n1") link (5 * second) tables).0 ≡ ok sent
unfolding handle_auth_start check_parameters check_target sign_state is_valid_intent is_valid_scope
    requires_session requires_account resolve or_error user_of seen expired Users.get_by_id
    Sessions.get_by_token_hash trim_space trim_left trim_right is_space safe_next
link_started = refl

handle_auth_start-MayStart_example : MayStart crypto link (5 * second) tables
handle_auth_start-MayStart_example =
    handle_auth_start-MayStart crypto signer options consent (ok "n1") link (5 * second) tables sent
      link_started

not_blank : (s : String) → (s == "") ≡ false → s ≢ ""
not_blank s h = ground (arith, eq_iff s "")

round_trips : RoundTrips signer signed
unfolding contains_any
round_trips = record {
  payload = "state";
  marshals = refl;
  unmarshals = refl;
  decodes = refl;
  not_empty = not_blank "state" refl;
  no_dot = refl;
  signed = not_blank "hmac of state" refl;
}

verify_state-handle_auth_start_example :
    (accepted : String) × (sent.location
      ≡ consent accepted (identity_scopes ++ drive_scope_url (scope_of link) ∷ []))
    × (sent.cookies ≡ set_state_cookie options "n1" (5 * second))
    × (verify_state signer accepted "n1" (6 * second) ≡ ok signed)
verify_state-handle_auth_start_example =
    verify_state-handle_auth_start crypto signer options consent "n1" link (5 * second) (6 * second)
      tables sent link_started round_trips (not_blank "n1" refl) (omega arith) (omega arith)
