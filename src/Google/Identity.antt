-- ===== src/Google/Identity.antt =====
-- internal/google/oauth.go: the scopes that are asked for, and the profile of an account.
use mera_drive.Base.{String, Bool, List, [], ◌∷◌, ◌==◌, any}
use mera_drive.Google.Tokens.{Token}

abbrev pub scope_drive_file : String
scope_drive_file = "https://www.googleapis.com/auth/drive.file"

abbrev pub scope_drive_full : String
scope_drive_full = "https://www.googleapis.com/auth/drive"

abbrev pub identity_scopes : List String
identity_scopes =
    "openid" ∷ "https://www.googleapis.com/auth/userinfo.email"
    ∷ "https://www.googleapis.com/auth/userinfo.profile" ∷ []

pub record Profile : Type 0 where
  pub sub : String
  pub email : String
  pub email_verified : Bool
  pub name : String
  pub picture_url : String

-- `HasScope`
abbrev pub has_scope : Token → String → Bool
has_scope token scope = any (λ granted. granted == scope) token.granted_scopes
