-- ===== src/Google/Oauth.antt =====
-- internal/google/oauth.go: the OAuth client. The library golang.org/x/oauth2, the HTTP client
-- and JSON are the operations of a `Client`; a body that was read is a text.
pub mod Laws
mod Examples
use Prim.Native.String.{len}
use mera_drive.Base.{
  ℕ, String, Bool, true, false, not, ◌&&◌, ◌||◌, Option, none, some, List, [], ◌∷◌, ◌==◌, ◌<>◌, any,
  eqb, leb, ltb, fields, if◌then◌else◌,
}
use mera_drive.Base.Result.{Result, ok, err, Act}
use mera_drive.Base.Act.{pure, raise, lift, ◌>>=◌, ◌>>◌}
use mera_drive.Apperr.{
  Code, Error, Failure, other, Fault, app, raw, number, plain, error, with_cause, fail, fail_with,
}
use mera_drive.Google.Tokens.{Token}
use mera_drive.Google.Identity.{Profile}
use mera_drive.Google.OauthErrors.{OauthFailure, map_oauth_error}

pub record Endpoints : Type 0 where
  pub auth : String
  pub token : String
  pub user_info : String
  pub revoke : String

abbrev pub default_endpoints : Endpoints
default_endpoints = record {
  auth = "https://accounts.google.com/o/oauth2/v2/auth";
  token = "https://oauth2.googleapis.com/token";
  user_info = "https://openidconnect.googleapis.com/v1/userinfo";
  revoke = "https://oauth2.googleapis.com/revoke";
}

-- `Authenticator`, without its HTTP client.
pub record Authenticator : Type 0 where
  pub client_id : String
  pub client_secret : String
  pub redirect_url : String
  pub endpoints : Endpoints

-- oauth2.Config, with the two URLs of its endpoint; the client's credentials go in the parameters.
pub record OauthConfig : Type 0 where
  pub client_id : String
  pub client_secret : String
  pub redirect_url : String
  pub scopes : List String
  pub auth_url : String
  pub token_url : String

-- oauth2.Token, with its extra values that are texts.
pub record RawToken : Type 0 where
  pub access_token : String
  pub refresh_token : String
  pub expiry : ℕ
  pub extra : String → Option String

pub data HttpMethod : Type 0 where
  get post : HttpMethod

pub record Outgoing : Type 0 where
  pub method : HttpMethod
  pub url : String
  pub headers : List (String × String)
  pub form : List (String × String)

pub record Incoming : Type 0 where
  pub status : ℕ
  pub body : Result Failure String

pub record Client (W : Type 0) : Type 0 where
  -- oauth2.Config.AuthCodeURL, Exchange, and TokenSource with Token
  pub auth_code_url : OauthConfig → String → List (String × String) → String
  pub exchange_code : OauthConfig → String → Act W OauthFailure RawToken
  pub refresh_with : OauthConfig → String → Act W OauthFailure RawToken
  -- http.NewRequestWithContext
  pub build : Outgoing → Option Failure
  -- http.Client.Do
  pub send : Outgoing → Act W Failure Incoming
  -- json.Unmarshal
  pub unmarshal : String → Result Failure Profile
  -- b[:n]
  pub slice : ℕ → String → String

unfoldable pub oauth_config : Authenticator → List String → OauthConfig
oauth_config a scopes = record {
  client_id = a.client_id;
  client_secret = a.client_secret;
  redirect_url = a.redirect_url;
  scopes = scopes;
  auth_url = a.endpoints.auth;
  token_url = a.endpoints.token;
}

abbrev pub profile_request : Authenticator → String → Outgoing
profile_request a access_token = record {
  method = get;
  url = a.endpoints.user_info;
  headers = ("Authorization", "Bearer " <> access_token) ∷ ("Accept", "application/json") ∷ [];
  form = [];
}

abbrev pub revoke_request : Authenticator → String → Outgoing
revoke_request a token = record {
  method = post;
  url = a.endpoints.revoke;
  headers = ("Content-Type", "application/x-www-form-urlencoded") ∷ [];
  form = ("token", token) ∷ [];
}

abbrev pub no_credentials : Error
no_credentials =
    error Code.reauth_required
      (plain "This account has no stored credentials. Please reconnect it.")

module _ {W : Type 0} (client : Client W) where
  unfoldable pub truncate : String → ℕ → String
  truncate b max = if leb (len b) max then b else client.slice max b <> "…"

  unfoldable pub map_profile_status : ℕ → String → Error
  unfolding truncate
  map_profile_status status body =
      if eqb status 401 || eqb status 403
      then error Code.reauth_required
          (plain "Google rejected the access token while reading your profile.")
      else if eqb status 429
      then error Code.rate_limited
          (plain "Google is rate limiting this instance. Please try again shortly.")
      else if leb 500 status
      then error Code.upstream_unavailable
          (plain "Google is having trouble. Please try again shortly.")
      else with_cause
          (error Code.upstream_unavailable (record {
            format = "Google returned HTTP %d while reading your profile.";
            args = number status ∷ [];
          }))
          (raw (other ("userinfo body: " <> truncate body 256)))

  -- `stringExtra`
  abbrev pub string_extra : RawToken → String → String
  string_extra t key = elim (t.extra key) [ none ↦ "" | some v ↦ v ]

  module _ (a : Authenticator) where
    unfoldable pub auth_code_url : String → List String → String
    unfolding oauth_config
    auth_code_url state scopes = client.auth_code_url (oauth_config a scopes) state (
        ("access_type", "offline")
        ∷ ("prompt", "consent")
        ∷ ("include_granted_scopes", "true")
        ∷ [])

    -- A call of the library, with its error mapped.
    abbrev mapped : {A : Type 0} → Act W OauthFailure A → Act W Fault A
    mapped call w =
        let (reply, w') = call w in
        elim reply [ ok x ↦ (ok x, w') | err f ↦ (err (app (map_oauth_error f)), w') ]

    unfoldable pub exchange : String → Act W Fault Token
    unfolding oauth_config
    exchange code = do
      tok ← mapped (client.exchange_code (oauth_config a []) code)
      pure (record {
        access_token = tok.access_token;
        refresh_token = tok.refresh_token;
        expiry = tok.expiry;
        granted_scopes = fields (string_extra tok "scope");
      })

    unfoldable pub refresh : String → Act W Fault Token
    unfolding oauth_config
    refresh refresh_token = if refresh_token == "" then raise (app no_credentials) else do
      tok ← mapped (client.refresh_with (oauth_config a []) refresh_token)
      pure (record {
        access_token = tok.access_token;
        refresh_token = refresh_token;
        expiry = tok.expiry;
        granted_scopes = fields (string_extra tok "scope");
      })

    -- What `Profile` makes of a response.
    unfoldable pub read_profile : Incoming → Result Fault Profile
    unfolding map_profile_status
    read_profile resp = elim resp.body [
      | err f ↦ fail_with Code.upstream_unavailable "Google's profile response could not be read." f
      | ok body ↦
          if not (eqb resp.status 200)
          then err (app (map_profile_status resp.status body))
          else elim (client.unmarshal body) [
            | err f ↦
                fail_with Code.upstream_unavailable
                  "Google returned an unexpected profile response." f
            | ok p ↦
                if p.sub == "" || p.email == ""
                then fail Code.upstream_unavailable "Google did not return an account identifier."
                else ok p
          ]
    ]

    -- A request that is built and sent, with the two errors that this can have.
    unfoldable pub ask : Outgoing → String → String → Act W Fault Incoming
    ask req unbuilt unsent w = elim (client.build req) [
      | some f ↦ (fail_with Code.internal unbuilt f, w)
      | none ↦
          let (reply, w') = client.send req w in
          elim reply [
            | err f ↦ (fail_with Code.upstream_unavailable unsent f, w')
            | ok resp ↦ (ok resp, w')
          ]
    ]

    unfoldable pub profile : String → Act W Fault Profile
    unfolding ask read_profile
    profile access_token = do
      resp ←
          ask (profile_request a access_token) "Could not build the Google profile request."
            "Could not reach Google to read your profile."
      lift (read_profile resp)

    unfoldable pub revoke : String → Act W Fault (Unit {0})
    unfolding ask
    revoke token = do
      resp ←
          ask (revoke_request a token) "Could not build the Google revoke request."
            "Could not reach Google to revoke the token."
      if not (eqb resp.status 200) && not (eqb resp.status 400)
          then raise (
              app (
                error Code.upstream_unavailable (record {
                  format = "Google refused to revoke the token (HTTP %d).";
                  args = number resp.status ∷ [];
                })))
          else pure tt
