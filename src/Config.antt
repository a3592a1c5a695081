-- ===== src/Config.antt =====
-- internal/config/config.go: the settings of the server, read once from the environment. What the
-- standard library parses (integers, Booleans, durations, base64, URLs) and the environment
-- itself are the operations of a `Platform`. A duration is its nanoseconds.
pub mod Checks
pub mod Laws
pub mod Examples
use mera_drive.Base.{
  ℕ, ◌*◌, String, Bool, true, false, not, ◌&&◌, ◌||◌, Option, none, some, List, [], ◌∷◌, ◌++◌, ◌==◌,
  ◌<>◌, eqb, concat, length, map, split, trim_end, trim_space, if◌then◌else◌,
}
use mera_drive.Base.Int.{ℤ, pos, ltb_ℤ}
use mera_drive.Base.Result.{Result, ok, err}
use mera_drive.Apperr.{Message, Arg, text, number, integer, plain}
use mera_drive.Google.Errors.{second}

-- The code points of "/" and ",".
abbrev pub slash : ℕ
slash = 47

abbrev comma : ℕ
comma = 44

-- `keyLen`
abbrev pub key_len : ℕ
key_len = 32

pub record Url : Type 0 where
  pub scheme : String
  pub host : String

pub record Platform : Type 0 where
  pub lookup_env : String → Option String
  pub to_lower : String → String
  -- strconv.Atoi, strconv.ParseBool, time.ParseDuration
  pub atoi : String → Option ℤ
  pub parse_bool : String → Option Bool
  pub parse_duration : String → Option ℤ
  -- base64.StdEncoding.DecodeString, with the text of its error
  pub decode_string : String → Result String (List ℕ)
  -- url.Parse
  pub parse_url : String → Option Url

pub record Config : Type 0 where
  pub env : String
  pub log_level : String
  pub api_port : ℤ
  pub api_base_url : String
  pub app_base_url : String
  pub cors_origins : List String
  pub trust_proxy : Bool
  pub google_client_id : String
  pub google_client_secret : String
  pub encryption_key : List ℕ
  pub session_secret : List ℕ
  pub cookie_domain : String
  pub cookie_secure : Bool
  pub session_ttl : ℤ
  pub store_driver : String
  pub sqlite_path : String
  pub rate_limit_max : ℤ
  pub rate_limit_window : ℤ
  pub drive_concurrency : ℤ
  pub drive_timeout : ℤ

-- `Environment.IsProduction`
unfoldable pub is_production : String → Bool
is_production env = env == "production"

-- `Config.GoogleRedirectURL`
unfoldable pub google_redirect_url : Config → String
unfolding trim_end
google_redirect_url c = trim_end slash c.api_base_url <> "/api/v1/auth/google/callback"

abbrev valid_log_level : String → Bool
valid_log_level s = s == "debug" || s == "info" || s == "warn" || s == "error"

-- A setting that was read, or what is wrong with it.
abbrev pub Setting : Type 0 → Type 0
Setting A = Result Message A

abbrev pub message : String → List Arg → Message
message format args = record { format = format; args = args }

-- The errors that a check appends.
abbrev pub fail_if : Bool → Message → List Message
fail_if true m = m ∷ []
fail_if false m = []

abbrev pub errors_of : {A : Type 0} → Setting A → (A → List Message) → List Message
errors_of (err m) check = m ∷ []
errors_of (ok a) check = check a

abbrev pub value_or : {A : Type 0} → A → Setting A → A
value_or zero_value (err m) = zero_value
value_or zero_value (ok a) = a

-- The loop of `csv`.
unfoldable pub trimmed_parts : List String → List String
unfolding trim_space trim_end
trimmed_parts [] = []
trimmed_parts (part ∷ parts) =
    let rest = trimmed_parts parts in
    if trim_space part == "" then rest else trim_end slash (trim_space part) ∷ rest

unfoldable pub csv : String → List String
unfolding split trimmed_parts
csv raw = trimmed_parts (split comma raw)

module _ (p : Platform) where
  unfoldable pub str : String → String → String
  unfolding trim_space
  str key default = elim (p.lookup_env key) [
    | none ↦ default
    | some v ↦ if trim_space v == "" then default else trim_space v
  ]

  -- What `intVal`, `boolVal` and `durationVal` share.
  unfoldable pub parsed : {A : Type 0} → (String → Option A) → String → String → A → Setting A
  unfolding str
  parsed parse complaint key default =
      if str key "" == "" then ok default else elim (parse (str key "")) [
        | none ↦ err (message complaint (text key ∷ text (str key "") ∷ []))
        | some a ↦ ok a
      ]

  unfoldable pub int_val : String → ℤ → Setting ℤ
  unfolding parsed
  int_val = parsed p.atoi "%s must be an integer, got %q"

  unfoldable pub bool_val : String → Bool → Setting Bool
  unfolding parsed
  bool_val = parsed p.parse_bool "%s must be a boolean, got %q"

  unfoldable pub duration_val : String → ℤ → Setting ℤ
  unfolding parsed
  duration_val = parsed p.parse_duration "%s must be a Go duration such as 30s or 720h, got %q"

  unfoldable pub key_val : String → Setting (List ℕ)
  unfolding str
  key_val key =
      if str key "" == ""
      then err
          (message "%s is required; generate one with: openssl rand -base64 32" (text key ∷ []))
      else elim (p.decode_string (str key "")) [
        | err e ↦ err (message "%s must be base64-encoded: %w" (text key ∷ text e ∷ []))
        | ok b ↦
            if eqb (length b) key_len
            then ok b
            else err (
                message "%s must decode to exactly %d bytes, got %d"
                  (text key ∷ number key_len ∷ number (length b) ∷ []))
      ]

  unfoldable pub require_abs_url : String → String → List Message
  require_abs_url key raw =
      let not_absolute =
        message "%s must be an absolute URL such as https://drive.example.com, got %q"
          (text key ∷ text raw ∷ []) in
      elim (p.parse_url raw) [
        | none ↦ not_absolute ∷ []
        | some u ↦
            if u.scheme == "" || u.host == ""
            then not_absolute ∷ []
            else fail_if (not (u.scheme == "http") && not (u.scheme == "https"))
                (message "%s must use http or https, got %q" (text key ∷ text u.scheme ∷ []))
      ]

  -- The loop over the origins, which `*` breaks.
  unfoldable pub origin_errors : List String → List Message
  unfolding require_abs_url
  origin_errors [] = []
  origin_errors (o ∷ rest) =
      let later = require_abs_url "CORS_ORIGINS" o ++ origin_errors rest in
      if o == "*"
      then plain "CORS_ORIGINS cannot be \"*\" because the API uses credentialed requests" ∷ []
      else later

  abbrev positive : String → ℤ → List Message
  positive complaint n = fail_if (not (ltb_ℤ (pos 0) n)) (plain complaint)

  -- The settings, as the first part of `Load` reads them; what cannot be read has Go's zero value.
  unfoldable pub settings : Config
  settings =
      let app_base_url = str "APP_BASE_URL" "http://localhost:3000" in
      let env = str "SANGAM_ENV" "development" in
      record {
        env = env;
        log_level = p.to_lower (str "LOG_LEVEL" "info");
        api_port = value_or (pos 0) (int_val "API_PORT" (pos 8080));
        api_base_url = str "API_BASE_URL" "http://localhost:8080";
        app_base_url = app_base_url;
        cors_origins = csv (str "CORS_ORIGINS" app_base_url);
        trust_proxy = value_or false (bool_val "TRUST_PROXY" false);
        google_client_id = str "GOOGLE_CLIENT_ID" "";
        google_client_secret = str "GOOGLE_CLIENT_SECRET" "";
        encryption_key = value_or [] (key_val "ENCRYPTION_KEY");
        session_secret = value_or [] (key_val "SESSION_SECRET");
        cookie_domain = str "COOKIE_DOMAIN" "";
        cookie_secure = value_or false (bool_val "COOKIE_SECURE" (is_production env));
        session_ttl = value_or (pos 0) (duration_val "SESSION_TTL" (pos (2592000 * second)));
        store_driver = p.to_lower (str "STORE_DRIVER" "sqlite");
        sqlite_path = str "SQLITE_PATH" "./data/sangamdrive.db";
        rate_limit_max = value_or (pos 0) (int_val "RATE_LIMIT_MAX" (pos 300));
        rate_limit_window = value_or (pos 0) (duration_val "RATE_LIMIT_WINDOW" (pos (60 * second)));
        drive_concurrency = value_or (pos 0) (int_val "DRIVE_CONCURRENCY" (pos 8));
        drive_timeout = value_or (pos 0) (duration_val "DRIVE_TIMEOUT" (pos (30 * second)));
      }

  -- The checks of `Load`, in the order in which their errors are reported.
  unfoldable pub checks : Config → List (List Message)
  checks c =
      fail_if (not (c.env == "development") && not (c.env == "production")) (
        message "SANGAM_ENV must be %q or %q, got %q"
          (text "development" ∷ text "production" ∷ text c.env ∷ []))
      ∷ fail_if (not (valid_log_level c.log_level))
          (message "LOG_LEVEL must be one of debug|info|warn|error, got %q" (text c.log_level ∷ []))
      ∷ errors_of (int_val "API_PORT" (pos 8080)) (λ n.
        fail_if (ltb_ℤ n (pos 1) || ltb_ℤ (pos 65535) n)
          (message "API_PORT must be between 1 and 65535, got %d" (integer n ∷ [])))
      ∷ require_abs_url "API_BASE_URL" c.api_base_url
      ∷ require_abs_url "APP_BASE_URL" c.app_base_url
      ∷ fail_if (eqb (length c.cors_origins) 0) (plain "CORS_ORIGINS must list at least one origin")
      ∷ origin_errors c.cors_origins
      ∷ errors_of (bool_val "TRUST_PROXY" false) (λ _. [])
      ∷ fail_if (c.google_client_id == "") (plain "GOOGLE_CLIENT_ID is required")
      ∷ fail_if (c.google_client_secret == "") (plain "GOOGLE_CLIENT_SECRET is required")
      ∷ errors_of (key_val "ENCRYPTION_KEY") (λ _. [])
      ∷ errors_of (key_val "SESSION_SECRET") (λ _. [])
      ∷ errors_of (bool_val "COOKIE_SECURE" (is_production c.env)) (λ _. [])
      ∷ fail_if (is_production c.env && not c.cookie_secure)
          (plain "COOKIE_SECURE cannot be false in production")
      ∷ errors_of (duration_val "SESSION_TTL" (pos (2592000 * second)))
          (positive "SESSION_TTL must be positive")
      ∷ fail_if (not (c.store_driver == "sqlite")) (
          message "STORE_DRIVER %q is not implemented; only \"sqlite\" is available"
            (text c.store_driver ∷ []))
      ∷ fail_if (c.sqlite_path == "") (plain "SQLITE_PATH is required when STORE_DRIVER=sqlite")
      ∷ errors_of (int_val "RATE_LIMIT_MAX" (pos 300))
          (λ n. fail_if (ltb_ℤ n (pos 1)) (plain "RATE_LIMIT_MAX must be at least 1"))
      ∷ errors_of (duration_val "RATE_LIMIT_WINDOW" (pos (60 * second)))
          (positive "RATE_LIMIT_WINDOW must be positive")
      ∷ errors_of (int_val "DRIVE_CONCURRENCY" (pos 8)) (λ n.
        fail_if (ltb_ℤ n (pos 1) || ltb_ℤ (pos 64) n)
          (message "DRIVE_CONCURRENCY must be between 1 and 64, got %d" (integer n ∷ [])))
      ∷ errors_of (duration_val "DRIVE_TIMEOUT" (pos (30 * second)))
          (positive "DRIVE_TIMEOUT must be positive")
      ∷ []

  -- The errors joined, or the configuration.
  unfoldable pub load : Result (List Message) Config
  unfolding settings checks
  load = elim (concat (checks settings)) [ [] ↦ ok settings | m ∷ ms ↦ err (m ∷ ms) ]
