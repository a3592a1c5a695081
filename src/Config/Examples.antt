-- ===== src/Config/Examples.antt =====
-- internal/config at a concrete environment. The parsers know the texts that occur in it.
use mera_drive.Base.{ℕ, ◌*◌, ◌≡◌, ◌↔◌, refl, false, none, some, List, [], ◌∷◌, ◌==◌, if◌then◌else◌}
use mera_drive.Base.Int.{pos}
use mera_drive.Base.Result.{ok}
use mera_drive.Google.Errors.{second}
use mera_drive.Config.{
  Config, Platform, csv, str, int_val, bool_val, duration_val, key_val, require_abs_url,
  origin_errors, is_production, settings, checks, load,
}
use mera_drive.Config.Checks.{IsValid, Reads}
use mera_drive.Config.Laws.{load_iff}

abbrev key_bytes : List ℕ
key_bytes =
    1 ∷ 2 ∷ 3 ∷ 4 ∷ 5 ∷ 6 ∷ 7 ∷ 8 ∷ 1 ∷ 2 ∷ 3 ∷ 4 ∷ 5 ∷ 6 ∷ 7 ∷ 8 ∷ 1 ∷ 2 ∷ 3 ∷ 4 ∷ 5 ∷ 6 ∷ 7 ∷ 8
    ∷ 1 ∷ 2 ∷ 3 ∷ 4 ∷ 5 ∷ 6 ∷ 7 ∷ 8 ∷ []

abbrev pub platform : Platform
platform = record {
  lookup_env = λ k.
      if k == "GOOGLE_CLIENT_ID"
      then some "id"
      else if k == "GOOGLE_CLIENT_SECRET"
      then some " secret "
      else if k == "ENCRYPTION_KEY"
      then some "key"
      else if k == "SESSION_SECRET"
      then some "key"
      else if k == "CORS_ORIGINS"
      then some "http://localhost:3000/, "
      else if k == "API_PORT"
      then some "9000"
      else none;
  to_lower = λ s. s;
  atoi = λ s. if s == "9000" then some (pos 9000) else none;
  parse_bool = λ s. none;
  parse_duration = λ s. none;
  decode_string = λ s. ok key_bytes;
  parse_url = λ s. some (record { scheme = "http"; host = "localhost" });
}

abbrev pub config : Config
config = record {
  env = "development";
  log_level = "info";
  api_port = pos 9000;
  api_base_url = "http://localhost:8080";
  app_base_url = "http://localhost:3000";
  cors_origins = "http://localhost:3000" ∷ [];
  trust_proxy = false;
  google_client_id = "id";
  google_client_secret = "secret";
  encryption_key = key_bytes;
  session_secret = key_bytes;
  cookie_domain = "";
  cookie_secure = false;
  session_ttl = pos (2592000 * second);
  store_driver = "sqlite";
  sqlite_path = "./data/sangamdrive.db";
  rate_limit_max = pos 300;
  rate_limit_window = pos (60 * second);
  drive_concurrency = pos 8;
  drive_timeout = pos (30 * second);
}

loaded : load platform ≡ ok config
unfolding load checks settings csv str int_val bool_val duration_val key_val require_abs_url
    origin_errors is_production
loaded = refl

load_iff_example :
    (load platform ≡ ok config)
    ↔ ((config ≡ settings platform) × Reads platform config × IsValid platform config)
load_iff_example = load_iff platform config
