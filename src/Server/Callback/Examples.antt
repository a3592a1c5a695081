-- ===== src/Server/Callback/Examples.antt =====
-- internal/server/routes_auth.go, handleAuthCallback, at concrete inputs: the answer to the start
-- of Server/Start/Examples.
use mera_drive.Base.{ℕ, suc, ◌*◌, String, true, ◌≡◌, ◌⊎◌, [], ◌∷◌}
use mera_drive.Base.Result.{ok}
use mera_drive.Samples.{tables}
use mera_drive.Google.Errors.{second}
use mera_drive.Google.Identity.{scope_drive_full}
use mera_drive.Auth.SignIn.{State, verify_state}
use mera_drive.Server.Linking.{Fresh}
use mera_drive.Server.SignIn.{Outside, Site, complete_oauth}
use mera_drive.Server.Start.Examples.{crypto, options, signer, token}
use mera_drive.Server.Callback.{Texts, CallbackRequest, handle_auth_callback}
use mera_drive.Server.Callback.Home.{IsHome}
use mera_drive.Server.Callback.Laws.{handle_auth_callback-IsHome, handle_auth_callback-Signed}

abbrev texts : Texts
texts = record { encode = λ query. "query"; render = λ m. m.format }

abbrev base : String
base = "http://localhost:3000/"

abbrev fresh : Fresh
fresh = record {
  user_id = "u9";
  account_id = "a9";
  session_id = "s9";
  session_token = ok "t9";
  now = 6 * second;
}

-- Google knows one code; the world counts the calls.
abbrev out : Outside ℕ
out = record {
  exchange = λ code w. (
    ok (record {
      access_token = "access";
      refresh_token = "refresh";
      expiry = 0;
      granted_scopes = scope_drive_full ∷ [];
    }),
    suc w,
  );
  profile = λ access w. (
    ok (record {
      sub = "g3";
      email = "third@example.org";
      email_verified = true;
      name = "Asha";
      picture_url = "";
    }),
    suc w,
  );
  seal_refresh_token = λ t. ok "sealed-3";
}

abbrev returned : CallbackRequest
returned = record {
  request = record { session_cookie = "secret"; user_agent = "browser"; ip = "192.0.2.1" };
  state_cookie = "n1";
  google_error = "";
  state = token;
  code = "code";
}

abbrev site : Site ℕ
site = record { tables = tables; world = 0 }

handle_auth_callback-IsHome_example :
    IsHome texts base crypto signer options 100 fresh out returned site
      (handle_auth_callback texts base crypto signer options 100 fresh out returned site).0
handle_auth_callback-IsHome_example =
    handle_auth_callback-IsHome texts base crypto signer options 100 fresh out returned site

handle_auth_callback-Signed_example :
    ((handle_auth_callback texts base crypto signer options 100 fresh out returned site).1 ≡ site)
    ⊎ ((state : State) × (verify_state signer returned.state returned.state_cookie fresh.now
          ≡ ok state)
        × ((handle_auth_callback texts base crypto signer options 100 fresh out returned site).1
            ≡ (complete_oauth crypto 100 fresh returned.request out state returned.code site).1))
handle_auth_callback-Signed_example =
    handle_auth_callback-Signed texts base crypto signer options 100 fresh out returned site
