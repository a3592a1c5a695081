-- ===== src/Google/OauthErrors.antt =====
-- internal/google/oauth.go, mapOAuthError: the errors of the OAuth library as those of the server.
use mera_drive.Base.{ℕ, String, Bool, false, ◌||◌, Option, none, some, ◌==◌, leb, if◌then◌else◌}
use mera_drive.Apperr.{Code, Error, Failure, other, raw, plain, error, with_cause}

-- The errors of the library: an answer of the token endpoint, with its status where there is a
-- response, or anything else.
pub data OauthFailure : Type 0 where
  retrieve : String → Option ℕ → OauthFailure
  unreachable : Failure → OauthFailure

-- The error of a retrieval as its root cause.
abbrev pub cause_of : OauthFailure → Failure
cause_of (retrieve code status) = other code
cause_of (unreachable f) = f

abbrev server_error : Option ℕ → Bool
server_error none = false
server_error (some status) = leb 500 status

unfoldable pub map_retrieve : String → Option ℕ → Code × String
map_retrieve code status =
    if code == "invalid_grant"
    then (
      Code.reauth_required,
      "Google rejected the sign-in. The authorisation may have expired — please try again.",
    )
    else if code == "invalid_client" || code == "unauthorized_client"
    then (
      Code.internal,
      "This SangamDrive instance is misconfigured: Google rejected its OAuth client credentials.",
    )
    else if code == "invalid_scope"
    then (Code.bad_request, "Google rejected the requested permissions.")
    else if server_error status
    then (Code.upstream_unavailable, "Google is having trouble. Please try again shortly.")
    else (Code.bad_request, "Google could not complete the sign-in.")

unfoldable pub map_oauth_error : OauthFailure → Error
unfolding map_retrieve
map_oauth_error (unreachable f) =
    with_cause
      (error Code.upstream_unavailable (plain "Could not reach Google to complete sign-in."))
      (raw f)
map_oauth_error (retrieve code status) =
    let (c, message) = map_retrieve code status in
    with_cause (error c (plain message)) (raw (cause_of (retrieve code status)))
