-- ===== src/Server/Callback/Home.antt =====
-- internal/server/routes_auth.go, handleAuthCallback: the ends of a callback, and the redirects
-- that belong to them.
use mathlib.Core.Path.{subst}
use mera_drive.Base.{
  ℕ, ◌+◌, ◌≡◌, ◌≢◌, ◌⊎◌, refl, true, inl, inr, String, List, [], ◌∷◌, ◌++◌, ◌==◌, ◌<>◌, trim_end,
  Bool-cases, contains_any, eqb, eq_iff, arith, if◌then◌else◌,
}
use mera_drive.Base.Int.{negsuc}
use mera_drive.Base.Result.{ok, err, Result-cases}
use mera_drive.Apperr.{Fault, from}
use mera_drive.Config.{slash}
use mera_drive.Auth.SignIn.{Intent, State, Signer, verify_state}
use mera_drive.Auth.Next.{
  IsLocal, Lands, safe_next, safe_next-IsLocal, safe_next-Lands, safe_next_twice,
}
use mera_drive.Auth.Cookies.{
  Cookie, CookieOptions, state_cookie, expire, clear_state_cookie, set_session_cookies,
}
use mera_drive.Auth.Sessions.{Crypto, csrf_token}
use mera_drive.Server.Linking.{Fresh}
use mera_drive.Server.SignIn.{Request, Outside, Site, complete_oauth}
use mera_drive.Server.SignIn.Started.{login-session_token}
use mera_drive.Server.Start.{Redirect}
use mera_drive.Server.Callback.{
  question, Texts, CallbackRequest, not_granted, no_code, code_text, intent_text, app_url,
  failure_url, session_cookies, finish,
}

module _ (texts : Texts) (base : String) (crypto : Crypto) (signer : Signer)
    (options : CookieOptions) (ttl : ℕ) (fresh : Fresh) {W : Type 0} (out : Outside W) where
  -- The address of a path of the application with a query: behind a path that has a query already,
  -- more of it follows.
  abbrev pub address : String → List (String × String) → String
  address path query =
      let target = trim_end slash base <> path in
      target <> ((if contains_any (eqb question) target then "&" else "?") <> texts.encode query)

  -- What the application is told of a failure.
  abbrev pub told : Fault → List (String × String)
  told f =
      ("auth_error", code_text (from f).code) ∷ ("auth_message", texts.render (from f).message) ∷ []

  -- A cookie that deletes the state cookie in the browser: the same name, domain and path, no value
  -- and an age below zero.
  abbrev pub Deletes : Cookie → Type 0
  Deletes c =
      (c.name ≡ state_cookie)
      × (c.domain ≡ options.domain)
      × (c.path ≡ "/")
      × (c.value ≡ "")
      × (c.max_age ≡ negsuc 0)

  -- A redirect to a path on this site with a query, which deletes the state cookie first.
  pub record IsSent (path : String) (query : List (String × String)) (later : List Cookie)
      (sent : Redirect) : Type 0 where
    pub local : IsLocal path
    pub location : sent.location ≡ address path query
    pub deletion : Cookie
    pub deletes : Deletes deletion
    pub cookies : sent.cookies ≡ deletion ∷ later

  -- The cookies that a sign-in leaves: a login those of its new session, which lives as long as a
  -- session does, and the other intents none.
  abbrev pub Given : Intent → List Cookie → Type 0
  Given Intent.login later =
      (token : String) × (fresh.session_token ≡ ok token)
      × (later ≡ set_session_cookies options (csrf_token crypto) token (fresh.now + ttl))
  Given _ later = later ≡ []

  -- The four ends of a callback: Google granted nothing, the state is refused, the sign-in of the
  -- state fails or has no code, or it is done.
  pub data IsHome (r : CallbackRequest) (s : Site W) (sent : Redirect) : Type 0 where
    denied :
        r.google_error ≢ ""
        → IsSent "/" (told (not_granted r.google_error)) [] sent
        → IsHome r s sent
    refused :
        (f : Fault)
        → r.google_error ≡ ""
        → verify_state signer r.state r.state_cookie fresh.now ≡ err f
        → IsSent "/" (told f) [] sent
        → IsHome r s sent
    failed :
        (state : State) (path : String) (f : Fault)
        → r.google_error ≡ ""
        → verify_state signer r.state r.state_cookie fresh.now ≡ ok state
        → Lands state.next path
        → ((r.code ≡ "") × (f ≡ no_code))
          ⊎ ((complete_oauth crypto ttl fresh r.request out state r.code s).0 ≡ err f)
        → IsSent path (told f) [] sent
        → IsHome r s sent
    completed :
        (state : State) (path email : String) (later : List Cookie)
        → r.google_error ≡ ""
        → verify_state signer r.state r.state_cookie fresh.now ≡ ok state
        → Lands state.next path
        → r.code ≢ ""
        → (complete_oauth crypto ttl fresh r.request out state r.code s).0 ≡ ok email
        → Given state.intent later
        → IsSent path (("auth", intent_text state.intent) ∷ ("account", email) ∷ []) later sent
        → IsHome r s sent

  failure-IsSent :
      (next : String) (f : Fault)
      → IsSent (safe_next next) (told f) [] (record {
        location = failure_url texts base next f;
        cookies = clear_state_cookie options;
      })
  unfolding failure_url app_url code_text from clear_state_cookie expire
  failure-IsSent next f = record {
    local = safe_next-IsLocal next;
    location = refl;
    deletion = expire options state_cookie true;
    deletes = (refl, refl, refl, refl, refl);
    cookies = refl;
  }

  again-IsSent :
      (next : String) (f : Fault)
      → IsSent (safe_next next) (told f) [] (record {
        location = failure_url texts base (safe_next next) f;
        cookies = clear_state_cookie options;
      })
  again-IsSent next f =
      subst
        (λ p. IsSent p (told f) [] (record {
          location = failure_url texts base (safe_next next) f;
          cookies = clear_state_cookie options;
        }))
        (safe_next_twice next) (failure-IsSent (safe_next next) f)

  success-IsSent :
      (next : String) (q : String × String) (qs : List (String × String)) (later : List Cookie)
      → IsSent (safe_next next) (q ∷ qs) later (record {
        location = app_url texts base (safe_next next) (q ∷ qs);
        cookies = clear_state_cookie options ++ later;
      })
  unfolding app_url clear_state_cookie expire
  success-IsSent next q qs later = record {
    local = safe_next-IsLocal next;
    location = refl;
    deletion = expire options state_cookie true;
    deletes = (refl, refl, refl, refl, refl);
    cookies = refl;
  }

  pub root-IsSent :
      (f : Fault)
      → IsSent "/"
          (told f)
          []
          (record { location = failure_url texts base "/" f; cookies = clear_state_cookie options })
  unfolding safe_next contains_any
  root-IsSent f = failure-IsSent "/" f

  session_cookies-Given :
      (state : State) (i : Intent) (request : Request) (code email : String) (s : Site W)
      → state.intent ≡ i
      → (complete_oauth crypto ttl fresh request out state code s).0 ≡ ok email
      → Given i (session_cookies texts base crypto signer options ttl fresh out i)
  unfolding session_cookies
  session_cookies-Given state Intent.login request code email s e h =
      let (token, t) = login-session_token crypto ttl fresh request out state code email s e h in
      (token, t, ground arith)
  session_cookies-Given state Intent.link request code email s e h = refl
  session_cookies-Given state Intent.reconnect request code email s e h = refl
  session_cookies-Given state Intent.upgrade request code email s e h = refl
  session_cookies-Given state (Intent.unknown x) request code email s e h = refl

  pub finish-IsHome :
      (r : CallbackRequest) (state : State) (s : Site W)
      → r.google_error ≡ ""
      → verify_state signer r.state r.state_cookie fresh.now ≡ ok state
      → IsHome r s (finish texts base crypto signer options ttl fresh out r state s).0
  unfolding finish
  finish-IsHome r state s granted v = elim (Bool-cases (r.code == "")) [
    | inl e ↦
        failed state (safe_next state.next) no_code granted v (safe_next-Lands state.next)
          (inl ((eq_iff r.code "").0 e, refl)) (rw e (again-IsSent state.next no_code))
    | inr e ↦ elim (Result-cases (complete_oauth crypto ttl fresh r.request out state r.code s).0) [
      | inr (f, c) ↦
          failed state (safe_next state.next) f granted v (safe_next-Lands state.next) (inr c)
            (rw (e, c) (again-IsSent state.next f))
      | inl (email, c) ↦
          completed state (safe_next state.next) email
            (session_cookies texts base crypto signer options ttl fresh out state.intent) granted v
            (safe_next-Lands state.next) (ground (arith, eq_iff r.code "")) c
            (session_cookies-Given state state.intent r.request r.code email s refl c)
            (rw (e, c) (success-IsSent state.next _ _ _))
    ]
  ]
