-- ===== src/Auth/Examples.antt =====
-- internal/auth at concrete inputs. The HMAC, the hash, JSON and base64 are stand-ins that can be
-- read.
use mera_drive.Base.{
  ◌*◌, String, true, false, ◌≡◌, ◌≢◌, refl, arith, none, some, ◌==◌, ◌<>◌, contains_any, cut,
  if◌then◌else◌, eq_iff,
}
use mera_drive.Base.Result.{ok}
use mera_drive.Samples.{asha, laptop, tables}
use mera_drive.Google.Errors.{second}
use mera_drive.Store.{User, Session, expired}
use mera_drive.Sqlite.Users
use mera_drive.Sqlite.Sessions
use mera_drive.Auth.Sessions.{
  Crypto, or_error, new_session, truncate, issue, seen, user_of, resolve,
}
use mera_drive.Auth.Sessions.Laws.{Opens, resolve-Opens, resolve-issue}
use mera_drive.Auth.SignIn.{
  Intent, State, Signer, is_valid_intent, stamped, sign_state, split_token, read_payload,
  verify_hmac, check_state, verify_state,
}
use mera_drive.Auth.SignIn.Trip.{Accepts, RoundTrips, verify_state-Accepts}

not_blank : (s : String) → (s == "") ≡ false → s ≢ ""
not_blank s h = ground (arith, eq_iff s "")

abbrev crypto : Crypto
crypto = record { hash_token = λ t. "#" <> t; sign_hmac = λ m. "hmac of " <> m; slice = λ n s. s }

laptop_opened : (resolve crypto "secret" (10 * second) tables).0 ≡ ok (asha, laptop)
unfolding resolve or_error user_of seen expired Users.get_by_id Sessions.get_by_token_hash
laptop_opened = refl

resolve-Opens_example : Opens crypto "secret" (10 * second) tables asha laptop
resolve-Opens_example = resolve-Opens crypto "secret" (10 * second) tables asha laptop laptop_opened

abbrev phone : Session
phone = record laptop {
  id = "s2";
  user_id = "u2";
  token_hash = "#other";
  user_agent = "phone";
  expires_at = 500;
}

phone_issued :
    (issue crypto (ok "other") "s2" "u2" "phone" "192.0.2.1" 0 500 tables).0 ≡ ok ("other", phone)
unfolding issue or_error new_session truncate Sessions.create
phone_issued = refl

resolve-issue_example :
    (u : User) × (r : Session) × ((resolve crypto "other" 20
        (issue crypto (ok "other") "s2" "u2" "phone" "192.0.2.1" 0 500 tables).1).0
      ≡ ok (u, r))
    × ((u.id == "u2") ≡ true)
    × (r.id ≡ "s2")
resolve-issue_example =
    resolve-issue crypto "other" "s2" "u2" "phone" "192.0.2.1" 0 500 20 tables phone phone_issued
      (not_blank "other" refl) (omega arith)

abbrev sign_in : State
sign_in = record {
  nonce = "";
  intent = Intent.login;
  scope = "drive.file";
  account_id = "";
  next = "/";
  issued_at = 0;
}

abbrev signed : State
signed = stamped sign_in "n1" (5 * second)

-- One payload is known, by the name "state".
abbrev signer : Signer
signer = record {
  sign_hmac = λ m. "hmac of " <> m;
  marshal = λ s. ok "state";
  unmarshal = λ payload. if payload == "state" then some signed else none;
  encode_string = λ payload. payload;
  decode_string = λ encoded. some encoded;
}

abbrev token : String
token = "state" <> "." <> "hmac of state"

accepted : verify_state signer token "n1" (6 * second) ≡ ok signed
unfolding verify_state split_token read_payload verify_hmac check_state is_valid_intent cut
accepted = refl

verify_state-Accepts_example : Accepts signer token "n1" (6 * second) signed
verify_state-Accepts_example = verify_state-Accepts signer token "n1" (6 * second) signed accepted

round_trips : RoundTrips signer signed
unfolding contains_any
round_trips = record {
  payload = "state";
  marshals = refl;
  unmarshals = refl;
  decodes = refl;
  not_empty = not_blank "state" refl;
  no_dot = refl;
  signed = not_blank "hmac of state" refl;
}

signed_state : sign_state signer (ok "n1") (5 * second) sign_in ≡ ok (token, "n1")
unfolding sign_state
signed_state = refl

known_intent : is_valid_intent Intent.login ≡ true
unfolding is_valid_intent
known_intent = refl
