-- ===== src/Google/Oauth/Examples.antt =====
-- internal/google/oauth.go at concrete inputs: a world that counts the calls.
use mera_drive.Base.{
  ℕ, suc, ◌≡◌, ◌≢◌, ◌⊎◌, ◌↔◌, refl, String, true, Option, none, some, ◌==◌, [], if◌then◌else◌,
}
use mera_drive.Base.Result.{ok, err}
use mera_drive.Apperr.{Error, other, app}
use mera_drive.Google.Identity.{Profile}
use mera_drive.Google.OauthErrors.{retrieve}
use mera_drive.Google.Oauth.{
  Authenticator, RawToken, Incoming, Client, default_endpoints, oauth_config, read_profile, ask,
  profile, refresh,
}
use mera_drive.Google.Oauth.Laws.{is_reauth, refresh-Reauth_iff}

abbrev authenticator : Authenticator
authenticator = record {
  client_id = "id";
  client_secret = "secret";
  redirect_url = "http://localhost:8080/api/v1/auth/google/callback";
  endpoints = default_endpoints;
}

abbrev asha : Profile
asha = record {
  sub = "g1";
  email = "asha@example.org";
  email_verified = true;
  name = "Asha";
  picture_url = "";
}

abbrev answer : Incoming
answer = record { status = 200; body = ok "{asha}" }

abbrev issued : RawToken
issued = record { access_token = "a"; refresh_token = ""; expiry = 0; extra = λ k. none }

-- One refresh token has been revoked, every other one is renewed.
abbrev client : Client ℕ
client = record {
  auth_code_url = λ config state params. config.auth_url;
  exchange_code = λ config code w. (ok issued, suc w);
  refresh_with = λ config token w.
      (if token == "revoked" then err (retrieve "invalid_grant" (some 400)) else ok issued, suc w);
  build = λ req. none;
  send = λ req w. (ok answer, suc w);
  unmarshal = λ body. if body == "{asha}" then ok asha else err (other "no JSON");
  slice = λ n s. s;
}

asha_read : (profile client authenticator "a" 0).0 ≡ ok asha
unfolding profile ask read_profile
asha_read = refl

abbrev stale : String
stale = "revoked"

refresh-Reauth_iff_example :
    ((e : Error) × ((refresh client authenticator stale 0).0 ≡ err (app e))
      × (is_reauth e.code ≡ true))
    ↔ ((stale ≡ "")
        ⊎ ((stale ≢ "")
            × ((status : Option ℕ) × ((client.refresh_with
                    (oauth_config authenticator [])
                    stale
                    0).0
                  ≡ err (retrieve "invalid_grant" status)))))
refresh-Reauth_iff_example = refresh-Reauth_iff client authenticator stale 0
