-- ===== src/Config/Checks.antt =====
-- internal/config/config.go: what a configuration has to be, and what each check of Load says of
-- it.
use mera_drive.Base.{
  ℕ, ◌*◌, ◌≤◌, ◌≡◌, ◌≢◌, ◌⊎◌, ◌↔◌, refl, inl, inr, String, Bool, true, false, not, ◌&&◌, ◌||◌, some,
  List, [], ◌∷◌, ◌==◌, eqb, arith, eq_iff, append-nil_iff, length, All, Option-cases, Bool-cases,
  if◌then◌else◌,
}
use mathlib.Core.Path.{subst}
use mera_drive.Base.Int.{ℤ, pos, negsuc, ltb_ℤ}
use mera_drive.Base.Result.{ok, err}
use mera_drive.Apperr.{Message}
use mera_drive.Google.Errors.{second}
use mera_drive.Config.{
  Config, Platform, Url, Setting, is_production, fail_if, errors_of, value_or, int_val, bool_val,
  duration_val, key_val, require_abs_url, origin_errors,
}

abbrev pub IsBetween : ℕ → ℕ → ℤ → Type 0
IsBetween lo hi i = (n : ℕ) × (i ≡ pos n) × (lo ≤ n) × (n ≤ hi)

abbrev pub IsAtLeastOne : ℤ → Type 0
IsAtLeastOne i = (n : ℕ) × (i ≡ pos n) × (1 ≤ n)

-- An absolute URL of one of the two schemes.
abbrev pub IsAbsoluteUrl : Platform → String → Type 0
IsAbsoluteUrl p raw =
    (u : Url) × (p.parse_url raw ≡ some u)
    × ((u.scheme ≡ "http") ⊎ (u.scheme ≡ "https"))
    × (u.host ≢ "")

-- Pairs that are written in a row.
infixr 3 ◌&◌
abbrev pub ◌&◌ : {A B : Type 0} → A → B → A × B
a & b = (a, b)

-- What the server relies on.
pub record IsValid (p : Platform) (c : Config) : Type 0 where
  pub known_env : (c.env ≡ "development") ⊎ (c.env ≡ "production")
  pub known_level :
      (c.log_level ≡ "debug")
      ⊎ (c.log_level ≡ "info")
      ⊎ (c.log_level ≡ "warn")
      ⊎ (c.log_level ≡ "error")
  pub port : IsBetween 1 65535 c.api_port
  pub api_url : IsAbsoluteUrl p c.api_base_url
  pub app_url : IsAbsoluteUrl p c.app_base_url
  pub some_origin : c.cors_origins ≢ []
  pub origins : All (λ o. (o ≢ "*") × IsAbsoluteUrl p o) c.cors_origins
  pub client_id : c.google_client_id ≢ ""
  pub client_secret : c.google_client_secret ≢ ""
  pub secure : c.env ≡ "production" → c.cookie_secure ≡ true
  pub ttl : IsAtLeastOne c.session_ttl
  pub driver : c.store_driver ≡ "sqlite"
  pub path : c.sqlite_path ≢ ""
  pub limit : IsAtLeastOne c.rate_limit_max
  pub window : IsAtLeastOne c.rate_limit_window
  pub concurrency : IsBetween 1 64 c.drive_concurrency
  pub timeout : IsAtLeastOne c.drive_timeout

-- The settings that have to be parsed are readable.
pub record Reads (p : Platform) (c : Config) : Type 0 where
  pub port : int_val p "API_PORT" (pos 8080) ≡ ok c.api_port
  pub proxy : bool_val p "TRUST_PROXY" false ≡ ok c.trust_proxy
  pub encryption : key_val p "ENCRYPTION_KEY" ≡ ok c.encryption_key
  pub secret : key_val p "SESSION_SECRET" ≡ ok c.session_secret
  pub secure : bool_val p "COOKIE_SECURE" (is_production c.env) ≡ ok c.cookie_secure
  pub ttl : duration_val p "SESSION_TTL" (pos (2592000 * second)) ≡ ok c.session_ttl
  pub limit : int_val p "RATE_LIMIT_MAX" (pos 300) ≡ ok c.rate_limit_max
  pub window : duration_val p "RATE_LIMIT_WINDOW" (pos (60 * second)) ≡ ok c.rate_limit_window
  pub concurrency : int_val p "DRIVE_CONCURRENCY" (pos 8) ≡ ok c.drive_concurrency
  pub timeout : duration_val p "DRIVE_TIMEOUT" (pos (30 * second)) ≡ ok c.drive_timeout

fail_if_iff : (b : Bool) (m : Message) → (fail_if b m ≡ []) ↔ (b ≡ false)
fail_if_iff true m = ground arith
fail_if_iff false m = (λ h. refl, λ h. refl)

pub errors_of_iff :
    {A : Type 0} (zero_value : A) (s : Setting A) (check : A → List Message)
    → (errors_of s check ≡ [])
      ↔ ((s ≡ ok (value_or zero_value s)) × (check (value_or zero_value s) ≡ []))
errors_of_iff z (err m) check = (λ h. absurd (ground arith), λ h. absurd (ground arith))
errors_of_iff z (ok a) check = (λ h. (refl, h), λ h. h.1)

pub IsBetween-iff :
    (lo hi : ℕ) (i : ℤ) (m : Message)
    → (fail_if (ltb_ℤ i (pos lo) || ltb_ℤ (pos hi) i) m ≡ []) ↔ IsBetween lo hi i
IsBetween-iff lo hi (pos n) m = (λ h. (n, refl, ground arith, ground arith), λ h. ground arith)
IsBetween-iff lo hi (negsuc n) m = (λ h. absurd (ground arith), λ h. absurd (ground arith))

pub IsAtLeastOne-iff : (i : ℤ) (m : Message) → (fail_if (ltb_ℤ i (pos 1)) m ≡ []) ↔ IsAtLeastOne i
IsAtLeastOne-iff (pos n) m = (λ h. (n, refl, ground arith), λ h. ground arith)
IsAtLeastOne-iff (negsuc n) m = (λ h. absurd (ground arith), λ h. absurd (ground arith))

pub positive_iff : (i : ℤ) (m : Message) → (fail_if (not (ltb_ℤ (pos 0) i)) m ≡ []) ↔ IsAtLeastOne i
positive_iff (pos n) m = (λ h. (n, refl, ground arith), λ h. ground arith)
positive_iff (negsuc n) m = (λ h. absurd (ground arith), λ h. absurd (ground arith))

abbrev IsGoodUrl : Url → Type 0
IsGoodUrl u = ((u.scheme ≡ "http") ⊎ (u.scheme ≡ "https")) × (u.host ≢ "")

url_iff :
    (u : Url) (m m' : Message)
    → ((if u.scheme == "" || u.host == ""
          then m ∷ []
          else fail_if (not (u.scheme == "http") && not (u.scheme == "https")) m')
        ≡ [])
      ↔ IsGoodUrl u
url_iff u m m' = (
  λ h. (ground (arith, texts), ground (arith, texts)),
  λ h. ground (arith, texts, eq_iff "http" "", eq_iff "https" ""),
)
  where
    texts :
        ((u.scheme == "" ≡ true) ↔ (u.scheme ≡ ""))
        × ((u.host == "" ≡ true) ↔ (u.host ≡ ""))
        × ((u.scheme == "http" ≡ true) ↔ (u.scheme ≡ "http"))
        × ((u.scheme == "https" ≡ true) ↔ (u.scheme ≡ "https"))
    texts = (eq_iff u.scheme "", eq_iff u.host "", eq_iff u.scheme "http", eq_iff u.scheme "https")

pub require_abs_url_iff :
    (p : Platform) (key raw : String) → (require_abs_url p key raw ≡ []) ↔ IsAbsoluteUrl p raw
unfolding require_abs_url
require_abs_url_iff p key raw = elim (Option-cases (p.parse_url raw)) [
  | inl e ↦ (λ h. absurd (ground arith), λ h. absurd (ground arith))
  | inr (u, e) ↦
      rw (e, require_abs_url)
        (
          λ h. let (scheme, host) = (url_iff u _ _).0 h in (u, refl, scheme, host),
          λ (v, same, scheme, host).
              (url_iff u _ _).1 (subst IsGoodUrl (some_injective same) (scheme, host)),
        )
]
  where
    some_injective : {u v : Url} → some u ≡ some v → v ≡ u
    some_injective h = ground arith

pub origin_errors_iff :
    (p : Platform) (origins : List String)
    → (origin_errors p origins ≡ []) ↔ All (λ o. (o ≢ "*") × IsAbsoluteUrl p o) origins
unfolding origin_errors
origin_errors_iff p [] = (λ h. tt, λ h. refl)
origin_errors_iff p (o ∷ rest) = elim (Bool-cases (o == "*")) [
  | inl star ↦ rw star (
    λ h. absurd (ground arith),
    λ h. let ((other, _), _) = h in absurd (other ((eq_iff o "*").0 star)),
  )
  | inr other ↦ rw other (
    λ h.
        let (now, later) =
          (append-nil_iff (require_abs_url p "CORS_ORIGINS" o) (origin_errors p rest)).0 h in
        (
          (λ e. ground (arith, eq_iff o "*"), (require_abs_url_iff p "CORS_ORIGINS" o).0 now),
          (origin_errors_iff p rest).0 later,
        ),
    λ h.
        let ((_, url), urls) = h in
        (append-nil_iff (require_abs_url p "CORS_ORIGINS" o) (origin_errors p rest)).1
          ((require_abs_url_iff p "CORS_ORIGINS" o).1 url, (origin_errors_iff p rest).1 urls),
  )
]

pub env_iff :
    (s : String) (m : Message)
    → (fail_if (not (s == "development") && not (s == "production")) m ≡ [])
      ↔ ((s ≡ "development") ⊎ (s ≡ "production"))
env_iff s m = (
  λ h. ground (arith, eq_iff s "development", eq_iff s "production"),
  λ h. ground (arith, eq_iff s "development", eq_iff s "production"),
)

pub level_iff :
    (s : String) (m : Message)
    → (fail_if (not (s == "debug" || s == "info" || s == "warn" || s == "error")) m ≡ [])
      ↔ ((s ≡ "debug") ⊎ (s ≡ "info") ⊎ (s ≡ "warn") ⊎ (s ≡ "error"))
level_iff s m = (
  λ h. ground (arith, eq_iff s "debug", eq_iff s "info", eq_iff s "warn", eq_iff s "error"),
  λ h. ground (arith, eq_iff s "debug", eq_iff s "info", eq_iff s "warn", eq_iff s "error"),
)

pub not_empty_iff : (s : String) (m : Message) → (fail_if (s == "") m ≡ []) ↔ (s ≢ "")
not_empty_iff s m = (λ h. ground (arith, eq_iff s ""), λ h. ground (arith, eq_iff s ""))

pub is_text_iff : (s t : String) (m : Message) → (fail_if (not (s == t)) m ≡ []) ↔ (s ≡ t)
is_text_iff s t m = (λ h. ground (arith, eq_iff s t), λ h. ground (arith, eq_iff s t))

pub some_iff : (xs : List String) (m : Message) → (fail_if (eqb (length xs) 0) m ≡ []) ↔ (xs ≢ [])
some_iff [] m = (λ h. absurd (ground arith), λ h. absurd (h refl))
some_iff (x ∷ xs) m = (λ h e. ground arith, λ h. ground arith)

pub secure_iff :
    (env : String) (secure : Bool) (m : Message)
    → (fail_if (is_production env && not secure) m ≡ []) ↔ (env ≡ "production" → secure ≡ true)
unfolding is_production
secure_iff env secure m = (
  λ h e. ground (arith, eq_iff env "production"),
  λ h. elim (Bool-cases (env == "production")) [
    | inl e ↦ ground (arith, h ((eq_iff env "production").0 e))
    | inr e ↦ ground arith
  ],
)
