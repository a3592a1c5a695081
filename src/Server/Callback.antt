-- ===== src/Server/Callback.antt =====
-- internal/server/routes_auth.go, handleAuthCallback: the way back from Google. Every outcome is
-- a redirect into the web application; the log is left out. url.Values.Encode and fmt.Sprintf are
-- the operations of `Texts`.
pub mod Home
pub mod Laws
mod Examples
use mera_drive.Base.{
  ℕ, ◌+◌, String, Bool, true, false, not, List, [], ◌∷◌, ◌++◌, ◌==◌, ◌<>◌, eqb, trim_end,
  contains_any, if◌then◌else◌,
}
use mera_drive.Base.Result.{Result, ok, err}
use mera_drive.Apperr.{Code, Error, Fault, Message, text, app, error, plain, from}
use mera_drive.Config.{slash}
use mera_drive.Auth.SignIn.{Intent, State, Signer, verify_state}
use mera_drive.Auth.Next.{safe_next}
use mera_drive.Auth.Cookies.{Cookie, CookieOptions, clear_state_cookie, set_session_cookies}
use mera_drive.Auth.Sessions.{Crypto, csrf_token}
use mera_drive.Server.Linking.{Fresh}
use mera_drive.Server.SignIn.{Request, Outside, Site, complete_oauth}
use mera_drive.Server.Start.{Redirect}

-- The code point of "?".
abbrev pub question : ℕ
question = 63

pub record Texts : Type 0 where
  pub encode : List (String × String) → String
  pub render : Message → String

-- The text of a code, which is part of the API.
unfoldable pub code_text : Code → String
code_text Code.bad_request = "bad_request"
code_text Code.validation = "validation_failed"
code_text Code.unauthorized = "unauthorized"
code_text Code.csrf = "csrf_invalid"
code_text Code.forbidden = "forbidden"
code_text Code.not_found = "not_found"
code_text Code.conflict = "conflict"
code_text Code.payload_too_large = "payload_too_large"
code_text Code.rate_limited = "rate_limited"
code_text Code.internal = "internal_error"
code_text Code.reauth_required = "reauth_required"
code_text Code.insufficient_scope = "insufficient_scope"
code_text Code.quota_exceeded = "quota_exceeded"
code_text Code.upstream_unavailable = "upstream_unavailable"

abbrev pub intent_text : Intent → String
intent_text Intent.login = "login"
intent_text Intent.link = "link"
intent_text Intent.reconnect = "reconnect"
intent_text Intent.upgrade = "upgrade"
intent_text (Intent.unknown s) = s

pub record CallbackRequest : Type 0 where
  pub request : Request
  pub state_cookie : String
  pub google_error : String
  pub state : String
  pub code : String

abbrev pub not_granted : String → Fault
not_granted google_error = app (
    error Code.forbidden
      (record { format = "Google did not grant access: %s."; args = text google_error ∷ [] }))

abbrev pub no_code : Fault
no_code = app (error Code.bad_request (plain "Google did not return an authorisation code."))

module _ (texts : Texts) (app_base_url : String) where
  unfoldable pub app_url : String → List (String × String) → String
  unfolding trim_end contains_any
  app_url path query =
      let target = trim_end slash app_base_url <> path in
      elim query [
        | [] ↦ target
        | q ∷ qs ↦
            target
            <> ((if contains_any (eqb question) target then "&" else "?") <> texts.encode (q ∷ qs))
      ]

  unfoldable pub failure_url : String → Fault → String
  unfolding app_url code_text from
  failure_url next f = app_url (safe_next next) (
      ("auth_error", code_text (from f).code)
      ∷ ("auth_message", texts.render (from f).message)
      ∷ [])

  module _ (crypto : Crypto) (signer : Signer) (options : CookieOptions) (ttl : ℕ) (fresh : Fresh)
      {W : Type 0} (out : Outside W) where
    -- The cookies of `startSession`, which a login that succeeds has reached.
    unfoldable pub session_cookies : Intent → List Cookie
    session_cookies Intent.login = elim fresh.session_token [
      | ok token ↦ set_session_cookies options (csrf_token crypto) token (fresh.now + ttl)
      | err f ↦ []
    ]
    session_cookies _ = []

    -- The callback after the state was accepted.
    unfoldable pub finish : CallbackRequest → State → Site W → Redirect × Site W
    unfolding app_url session_cookies
    finish r state s =
        let next = safe_next state.next in
        let (reply, s') = complete_oauth crypto ttl fresh r.request out state r.code s in
        let cleared = clear_state_cookie options in
        if r.code == ""
        then (record { location = failure_url next no_code; cookies = cleared }, s)
        else elim reply [
          | err f ↦ (record { location = failure_url next f; cookies = cleared }, s')
          | ok email ↦ (
            record {
              location =
                  app_url next (("auth", intent_text state.intent) ∷ ("account", email) ∷ []);
              cookies = cleared ++ session_cookies state.intent;
            },
            s',
          )
        ]

    unfoldable pub handle_auth_callback : CallbackRequest → Site W → Redirect × Site W
    unfolding failure_url
    handle_auth_callback r s =
        let cleared = clear_state_cookie options in
        if not (r.google_error == "")
        then (
          record { location = failure_url "/" (not_granted r.google_error); cookies = cleared },
          s,
        )
        else elim (verify_state signer r.state r.state_cookie fresh.now) [
          | err f ↦ (record { location = failure_url "/" f; cookies = cleared }, s)
          | ok state ↦ finish r state s
        ]
