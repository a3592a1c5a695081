-- ===== src/Config/Laws.antt =====
-- internal/config/config.go: which configurations the server starts with.
use mera_drive.Base.{
  ℕ, ◌≡◌, ◌⊎◌, ◌↔◌, refl, sym, inl, inr, String, false, List, [], ◌∷◌, ◌==◌, eqb, arith, concat,
  concat-nil, concat-nil_of, eqb_iff, length, Bool-cases,
}
use mathlib.Core.Path.{subst}
use mera_drive.Base.Int.{pos}
use mera_drive.Base.Result.{ok, err, Result-cases}
use mera_drive.Apperr.{Message}
use mera_drive.Config.{Config, Platform, key_len, str, key_val, settings, checks, load}
use mera_drive.Config.Checks.{
  ◌&◌, Reads, IsValid, errors_of_iff, IsBetween-iff, IsAtLeastOne-iff, positive_iff,
  require_abs_url_iff, origin_errors_iff, env_iff, level_iff, not_empty_iff, is_text_iff, some_iff,
  secure_iff,
}

-- The checks find nothing only where everything is readable and valid.
checks-nil :
    (p : Platform)
    → concat (checks p (settings p)) ≡ []
    → Reads p (settings p) × IsValid p (settings p)
unfolding checks settings
checks-nil p h =
    let (env, (level, (port, (api, (app, (some_origin, (origins, rest))))))) =
      concat-nil (checks p (settings p)) h in
    let (proxy, (id, (secret, (encryption, (session, (secure, (in_production, others))))))) =
      rest in
    let (ttl, (driver, (path, (limit, (window, (concurrency, (timeout, _))))))) = others in
    let (port_read, port_fits) = (errors_of_iff (pos 0) _ _).0 port in
    let (ttl_read, ttl_fits) = (errors_of_iff (pos 0) _ _).0 ttl in
    let (limit_read, limit_fits) = (errors_of_iff (pos 0) _ _).0 limit in
    let (window_read, window_fits) = (errors_of_iff (pos 0) _ _).0 window in
    let (concurrency_read, concurrency_fits) = (errors_of_iff (pos 0) _ _).0 concurrency in
    let (timeout_read, timeout_fits) = (errors_of_iff (pos 0) _ _).0 timeout in
    (
      record {
        port = port_read;
        proxy = ((errors_of_iff false _ _).0 proxy).0;
        encryption = ((errors_of_iff [] _ _).0 encryption).0;
        secret = ((errors_of_iff [] _ _).0 session).0;
        secure = ((errors_of_iff false _ _).0 secure).0;
        ttl = ttl_read;
        limit = limit_read;
        window = window_read;
        concurrency = concurrency_read;
        timeout = timeout_read;
      },
      record {
        known_env = (env_iff _ _).0 env;
        known_level = (level_iff _ _).0 level;
        port = (IsBetween-iff 1 65535 _ _).0 port_fits;
        api_url = (require_abs_url_iff p "API_BASE_URL" _).0 api;
        app_url = (require_abs_url_iff p "APP_BASE_URL" _).0 app;
        some_origin = (some_iff _ _).0 some_origin;
        origins = (origin_errors_iff p _).0 origins;
        client_id = (not_empty_iff _ _).0 id;
        client_secret = (not_empty_iff _ _).0 secret;
        secure = (secure_iff _ _ _).0 in_production;
        ttl = (positive_iff _ _).0 ttl_fits;
        driver = (is_text_iff _ _ _).0 driver;
        path = (not_empty_iff _ _).0 path;
        limit = (IsAtLeastOne-iff _ _).0 limit_fits;
        window = (positive_iff _ _).0 window_fits;
        concurrency = (IsBetween-iff 1 64 _ _).0 concurrency_fits;
        timeout = (positive_iff _ _).0 timeout_fits;
      },
    )

-- Where everything is readable and valid they find nothing.
checks-nil_of :
    (p : Platform)
    → Reads p (settings p)
    → IsValid p (settings p)
    → concat (checks p (settings p)) ≡ []
unfolding checks settings
checks-nil_of p reads valid = concat-nil_of (checks p (settings p)) (
    (env_iff _ _).1 valid.known_env
    & (level_iff _ _).1 valid.known_level
    & (errors_of_iff (pos 0) _ _).1 (reads.port, (IsBetween-iff 1 65535 _ _).1 valid.port)
    & (require_abs_url_iff p "API_BASE_URL" _).1 valid.api_url
    & (require_abs_url_iff p "APP_BASE_URL" _).1 valid.app_url
    & (some_iff _ _).1 valid.some_origin
    & (origin_errors_iff p _).1 valid.origins
    & (errors_of_iff false _ _).1 (reads.proxy, refl)
    & (not_empty_iff _ _).1 valid.client_id
    & (not_empty_iff _ _).1 valid.client_secret
    & (errors_of_iff [] _ _).1 (reads.encryption, refl)
    & (errors_of_iff [] _ _).1 (reads.secret, refl)
    & (errors_of_iff false _ _).1 (reads.secure, refl)
    & (secure_iff _ _ _).1 valid.secure
    & (errors_of_iff (pos 0) _ _).1 (reads.ttl, (positive_iff _ _).1 valid.ttl)
    & (is_text_iff _ _ _).1 valid.driver
    & (not_empty_iff _ _).1 valid.path
    & (errors_of_iff (pos 0) _ _).1 (reads.limit, (IsAtLeastOne-iff _ _).1 valid.limit)
    & (errors_of_iff (pos 0) _ _).1 (reads.window, (positive_iff _ _).1 valid.window)
    & (errors_of_iff (pos 0) _ _).1
        (reads.concurrency, (IsBetween-iff 1 64 _ _).1 valid.concurrency)
    & (errors_of_iff (pos 0) _ _).1 (reads.timeout, (positive_iff _ _).1 valid.timeout)
    & tt)

load_cases :
    (p : Platform)
    → ((concat (checks p (settings p)) ≡ []) × (load p ≡ ok (settings p)))
      ⊎ ((m : Message) × (ms : List Message) × (concat (checks p (settings p)) ≡ m ∷ ms)
          × (load p ≡ err (m ∷ ms)))
unfolding load
load_cases p = go (concat (checks p (settings p))) refl
  where
    go :
        (ms : List Message)
        → concat (checks p (settings p)) ≡ ms
        → ((concat (checks p (settings p)) ≡ []) × (load p ≡ ok (settings p)))
          ⊎ ((m : Message) × (rest : List Message) × (concat (checks p (settings p)) ≡ m ∷ rest)
              × (load p ≡ err (m ∷ rest)))
    go [] e = inl (e, rw (e, load))
    go (m ∷ ms) e = inr (m, ms, e, rw (e, load))

-- The server starts with a configuration exactly when it is what the environment sets, every
-- setting that has to be parsed is readable, and the whole is valid: a known environment and log
-- level, ports and limits in their ranges, absolute URLs, at least one origin and none of them
-- `*`, credentials, secure cookies in production.
pub load_iff :
    (p : Platform) (c : Config) → (load p ≡ ok c) ↔ ((c ≡ settings p) × Reads p c × IsValid p c)
load_iff p c = (
  λ h. elim (load_cases p) [
    | inl (e, loaded) ↦
        let same : settings p ≡ c = ground arith in
        let (reads, valid) = checks-nil p e in
        (sym same, subst (Reads p) same reads, subst (IsValid p) same valid)
    | inr (m, ms, e, failed) ↦ absurd (ground arith)
  ],
  λ (same, reads, valid). elim (load_cases p) [
    | inl (e, loaded) ↦ ground arith
    | inr (m, ms, e, failed) ↦
        let none_left : concat (checks p (settings p)) ≡ [] =
          checks-nil_of p (subst (Reads p) same reads) (subst (IsValid p) same valid) in
        absurd (ground arith)
  ],
)

pub key_val-length :
    (p : Platform) (key : String) (b : List ℕ) → key_val p key ≡ ok b → length b ≡ key_len
unfolding key_val
key_val-length p key b h = elim (Bool-cases (str p key "" == "")) [
  | inl e ↦ absurd (ground arith)
  | inr e ↦ elim (Result-cases (p.decode_string (str p key ""))) [
    | inr (f, d) ↦ absurd (ground arith)
    | inl (raw, d) ↦ elim (Bool-cases (eqb (length raw) key_len)) [
      | inr l ↦ absurd (ground arith)
      | inl l ↦
          let same : raw ≡ b = ground arith in
          subst (λ x. length x ≡ key_len) same ((eqb_iff _ _).0 l)
    ]
  ]
]
