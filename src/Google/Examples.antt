-- ===== src/Google/Examples.antt =====
-- internal/google at concrete inputs.
use mera_drive.Base.{
  ℕ, ◌+◌, ◌≤◌, ◌<◌, ◌*◌, String, true, false, ◌≡◌, ◌≢◌, ◌↔◌, ◌⊎◌, refl, arith, none, some, [], ◌∷◌,
  ◌<>◌,
}
use mera_drive.Base.Result.{ok}
use mera_drive.Google.Errors.{Envelope, reason, one_of, rate_reasons, map_api_error, second}
use mera_drive.Google.Errors.Laws.{known, Retryable, map_api_error-Retryable}
use mera_drive.Google.Query.{ListScope, ListOptions, escape_query_value}
use mera_drive.Google.Query.Quoting.{unquote, unquote-escape_query_value}
use mera_drive.Google.Tokens.{
  Token, Refresher, Manager, Role, flown_with, cached, renew, access_token, refresh_skew,
}
use mera_drive.Google.Tokens.Cache.{Source, access_token-Source}

-- A refresher that gives the token of its credentials, and counts its calls.
abbrev counting : String → Refresher ℕ
counting token = record {
  refresh = λ credentials w. (
    ok (record {
      access_token = token;
      refresh_token = "";
      expiry = 3600 * second;
      granted_scopes = [];
    }),
    w + 1,
  );
  now = λ w. 0;
  fingerprint_of = λ credentials. "#" <> credentials;
}

abbrev nothing : Manager ℕ
nothing = record { entries = []; world = 0 }

abbrev issued : String → Token
issued token = record {
  access_token = token;
  refresh_token = "";
  expiry = 3600 * second;
  granted_scopes = [];
}

first_token : (access_token (counting "t1") (λ m. m) Role.leads "a1" "r1" nothing).0 ≡ ok "t1"
unfolding access_token cached renew
first_token = refl

-- A refresher whose tokens name their credentials.
abbrev naming : Refresher ℕ
naming = record {
  refresh = λ credentials w. (ok (issued ("token of " <> credentials)), w + 1);
  now = λ w. 0;
  fingerprint_of = λ credentials. "#" <> credentials;
}

-- A caller with the new credentials "r2" joins the flight of one with the old credentials "r1", and
-- is given the token of the old ones.
joined : (access_token naming (λ m. m) (Role.joins "r1") "a1" "r2" nothing).0 ≡ ok "token of r1"
unfolding access_token cached renew
joined = refl

access_token-Source_example :
    Source naming "a1" "r2" "token of r1" nothing
    ⊎ ((◌≢◌ {A = String} "token of r1" "")
        × Source naming "a1" (flown_with (Role.joins "r1") "r2") "token of r1" nothing)
access_token-Source_example =
    access_token-Source naming (λ m. m) (Role.joins "r1") "a1" "r2" "token of r1" nothing joined

empty_cache : cached (counting "t1") "a1" "#r1" nothing ≡ none
unfolding cached
empty_cache = refl

not_late : (token : String) → 0 + refresh_skew < 3600 * second
not_late token = omega arith

empty_cache_for_blank : cached (counting "") "a1" "#r1" nothing ≡ none
unfolding cached
empty_cache_for_blank = refl

unquote-escape_query_value_example :
    unquote (escape_query_value "it's \\ here" <> "'" <> " in parents")
    ≡ some ("it's \\ here", " in parents")
unquote-escape_query_value_example = unquote-escape_query_value "it's \\ here" " in parents"

abbrev in_folder : ListOptions
in_folder = record {
  scope = ListScope.children;
  parent_id = "o'brien";
  order_by = "";
  page_size = 10;
  page_token = "";
}

abbrev forbidden : ℕ
forbidden = 403

abbrev too_fast : Envelope
too_fast = record { message = "slow down"; reasons = "userRateLimitExceeded" ∷ [] }

map_api_error-Retryable_example : Retryable (map_api_error forbidden too_fast 0) ↔ (
    (one_of (reason too_fast) rate_reasons ≡ true)
    ⊎ ((known (reason too_fast) ≡ false) × ((forbidden ≡ 429) ⊎ (500 ≤ forbidden))))
map_api_error-Retryable_example = map_api_error-Retryable forbidden too_fast 0
