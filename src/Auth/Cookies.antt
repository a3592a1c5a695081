-- ===== src/Auth/Cookies.antt =====
-- internal/auth/auth.go: the cookies. The times are arguments, in nanoseconds since 1970.
use mera_drive.Base.{ℕ, ◌+◌, String, Bool, true, false, List, [], ◌∷◌}
use mera_drive.Base.Int.{ℤ, pos, negsuc}
use mera_drive.Auth.SignIn.{state_ttl}

abbrev pub session_cookie : String
session_cookie = "sangam_session"

abbrev pub csrf_cookie : String
csrf_cookie = "sangam_csrf"

abbrev pub state_cookie : String
state_cookie = "sangam_oauth"

pub data SameSite : Type 0 where
  lax : SameSite

-- fiber.Cookie; a `max_age` of 0 is one that is not set.
pub record Cookie : Type 0 where
  pub name : String
  pub value : String
  pub path : String
  pub domain : String
  pub expires : ℕ
  pub max_age : ℤ
  pub secure : Bool
  pub http_only : Bool
  pub same_site : SameSite

pub record CookieOptions : Type 0 where
  pub domain : String
  pub secure : Bool

module _ (cookies : CookieOptions) where
  abbrev cookie : String → String → ℕ → Bool → Cookie
  cookie name value expires http_only = record {
    name = name;
    value = value;
    path = "/";
    domain = cookies.domain;
    expires = expires;
    max_age = pos 0;
    secure = cookies.secure;
    http_only = http_only;
    same_site = lax;
  }

  -- The script of the page has to read the second one.
  unfoldable pub set_session_cookies : (String → String) → String → ℕ → List Cookie
  set_session_cookies csrf_token token expires_at =
      cookie session_cookie token expires_at true
      ∷ cookie csrf_cookie (csrf_token token) expires_at false
      ∷ []

  unfoldable pub expire : String → Bool → Cookie
  expire name http_only = record (cookie name "" 0 http_only) { max_age = negsuc 0 }

  unfoldable pub clear_session_cookies : List Cookie
  unfolding expire
  clear_session_cookies = expire session_cookie true ∷ expire csrf_cookie false ∷ []

  unfoldable pub set_state_cookie : String → ℕ → List Cookie
  set_state_cookie nonce now = cookie state_cookie nonce (now + state_ttl) true ∷ []

  unfoldable pub clear_state_cookie : List Cookie
  unfolding expire
  clear_state_cookie = expire state_cookie true ∷ []
