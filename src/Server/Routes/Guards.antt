-- ===== src/Server/Routes/Guards.antt =====
-- internal/server/server.go: which handlers stand behind which middleware.
use mathlib.Core.Path.{subst}
use mera_drive.Base.{
  ℕ, zero, suc, All, String, Bool, true, false, not, ◌||◌, ◌&&◌, Option, none, List, [], ◌∷◌, ◌≡◌,
  ◌≢◌, ◌∙◌, sym, ap, inl, inr, refl, arith, any, eqb, eqb_iff, Option-cases, Bool-cases,
  starts_with, if◌then◌else◌,
}
use mera_drive.Base.Result.{ok, Act, Result-cases}
use mera_drive.Apperr.{Fault}
use mera_drive.Server.Guard.{Method}
use mera_drive.Server.Routes.{
  Middleware, Handler, Entry, Router, base_stack, register_routes, stack, pass, serve,
}

-- Which handlers a middleware protects: the session and the CSRF token all but the probes and the
-- ways to sign in, the limit all but the probes.
abbrev pub is_probe : Handler → Bool
is_probe Handler.health = true
is_probe Handler.ready = true
is_probe Handler.no_endpoint = true
is_probe _ = false

abbrev pub is_open : Handler → Bool
is_open Handler.meta = true
is_open Handler.auth_start = true
is_open Handler.auth_callback = true
is_open h = is_probe h

abbrev pub protects : Middleware → Handler → Bool
protects Middleware.rate_limit h = not (is_probe h)
protects Middleware.require_csrf h = not (is_open h)
protects Middleware.require_session h = not (is_open h)
protects _ h = true

-- A group's middleware runs for every path of the group.
pub record Groups (router : Router) : Type 0 where
  pub covers :
      (k : Method) (pattern : String) (method : Method) (path prefix : String)
      → router.matches k pattern method path ≡ true
      → starts_with pattern prefix ≡ true
      → router.under prefix path ≡ true

abbrev index : Middleware → ℕ
index Middleware.request_id = 0
index Middleware.recover = 1
index Middleware.secure_headers = 2
index Middleware.cors = 3
index Middleware.access_log = 4
index Middleware.rate_limit = 5
index Middleware.require_csrf = 6
index Middleware.require_session = 7

abbrev same : Middleware → Middleware → Bool
same m n = eqb (index m) (index n)

abbrev of_index : ℕ → Middleware
of_index zero = Middleware.request_id
of_index (suc zero) = Middleware.recover
of_index (suc (suc zero)) = Middleware.secure_headers
of_index (suc (suc (suc zero))) = Middleware.cors
of_index (suc (suc (suc (suc zero)))) = Middleware.access_log
of_index (suc (suc (suc (suc (suc zero))))) = Middleware.rate_limit
of_index (suc (suc (suc (suc (suc (suc zero)))))) = Middleware.require_csrf
of_index _ = Middleware.require_session

of_index-index : (m : Middleware) → of_index (index m) ≡ m
of_index-index Middleware.request_id = refl
of_index-index Middleware.recover = refl
of_index-index Middleware.secure_headers = refl
of_index-index Middleware.cors = refl
of_index-index Middleware.access_log = refl
of_index-index Middleware.rate_limit = refl
of_index-index Middleware.require_csrf = refl
of_index-index Middleware.require_session = refl

same-eq : (m n : Middleware) → same m n ≡ true → m ≡ n
same-eq m n h =
    sym (of_index-index m) ∙ ap of_index ((eqb_iff (index m) (index n)).0 h) ∙ of_index-index n

-- Every handler that `m` protects stands behind it, past groups at the prefixes `off`.
abbrev is_covered : Middleware → List String → List Entry → Bool
is_covered m off [] = true
is_covered m off (Entry.use_all n ∷ es) = same m n || is_covered m off es
is_covered m off (Entry.group prefix n ∷ es) =
    let behind = is_covered m (prefix ∷ off) es in
    let past = is_covered m off es in if same m n then behind else past
is_covered m off (Entry.route k pattern h ∷ es) =
    (not (protects m h) || any (starts_with pattern) off) && is_covered m off es
is_covered m off (Entry.otherwise h ∷ es) = not (protects m h)

stack-is_covered : (m : Middleware) → is_covered m [] stack ≡ true
unfolding base_stack register_routes
stack-is_covered Middleware.request_id = refl
stack-is_covered Middleware.recover = refl
stack-is_covered Middleware.secure_headers = refl
stack-is_covered Middleware.cors = refl
stack-is_covered Middleware.access_log = refl
stack-is_covered Middleware.rate_limit = refl
stack-is_covered Middleware.require_csrf = refl
stack-is_covered Middleware.require_session = refl

off_group :
    (under : String → Bool) (pattern : String) (off : List String)
    → All (λ p. under p ≡ false) off
    → any (starts_with pattern) off ≡ true
    → (p : String) × (starts_with pattern p ≡ true) × (under p ≡ false)
off_group under pattern [] h k = absurd (ground arith)
off_group under pattern (p ∷ off) (h, hs) k = elim (Bool-cases (starts_with pattern p)) [
  | inl e ↦ (p, e, h)
  | inr e ↦ off_group under pattern off hs (ground arith)
]

module _ {W A : Type 0} (run : Middleware → Act W Fault (Option A)) where
  -- Behind a middleware that stops everything the next entries do not matter.
  pass-stops :
      (m : Middleware) (next next' : Act W Fault A) (w : W)
      → ((v : W) → (run m v).0 ≢ ok none)
      → pass run m next w ≡ pass run m next' w
  unfolding pass
  pass-stops m next next' w stops = elim (Result-cases (run m w).0) [
    | inr (f, e) ↦ rw (pass, e) refl
    | inl (o, e) ↦ elim (Option-cases o) [
      | inr (a, s) ↦ rw (pass, e) (rw s refl)
      | inl s ↦ absurd (stops w (e ∙ ap ok s))
    ]
  ]

  pass-same :
      (m : Middleware) (next next' : Act W Fault A) (w : W)
      → ((v : W) → next v ≡ next' v)
      → pass run m next w ≡ pass run m next' w
  unfolding pass
  pass-same m next next' w h = elim (Result-cases (run m w).0) [
    | inr (f, e) ↦ rw (pass, e) refl
    | inl (o, e) ↦ elim (Option-cases o) [
      | inr (a, s) ↦ rw (pass, e) (rw s refl)
      | inl s ↦ rw (pass, e) (rw s (h (run m w).1))
    ]
  ]

module _ (router : Router) (groups : Groups router) {W A : Type 0}
    (run : Middleware → Act W Fault (Option A)) (answer answer' : Handler → Act W Fault A)
    (method : Method) (path : String) (m : Middleware) (stops : (w : W) → (run m w).0 ≢ ok none)
    (agree : (h : Handler) → protects m h ≡ false → (w : W) → answer h w ≡ answer' h w) where
  abbrev through : (Handler → Act W Fault A) → List Entry → Act W Fault A
  through a = serve router run a method path

  at_guard :
      (n : Middleware) (es : List Entry) (w : W)
      → same m n ≡ true
      → pass run n (through answer es) w ≡ pass run n (through answer' es) w
  at_guard n es w e =
      pass-stops run n (through answer es) (through answer' es) w
        (subst (λ x. (v : W) → (run x v).0 ≢ ok none) (same-eq m n e) stops)

  unreached :
      (off : List String) (es : List Entry) (w : W)
      → All (λ p. router.under p path ≡ false) off
      → is_covered m off es ≡ true
      → serve router run answer method path es w ≡ serve router run answer' method path es w
  unfolding serve
  unreached off [] w o h = refl
  unreached off (Entry.use_all n ∷ es) w o h = elim (Bool-cases (same m n)) [
    | inl e ↦ at_guard n es w e
    | inr e ↦
        pass-same run n (through answer es) (through answer' es) w
          (λ v. unreached off es v o (ground arith))
  ]
  unreached off (Entry.group prefix n ∷ es) w o h = elim (Bool-cases (router.under prefix path)) [
    | inl u ↦ elim (Bool-cases (same m n)) [
      | inl e ↦ rw u (at_guard n es w e)
      | inr e ↦ rw u (
          pass-same run n (through answer es) (through answer' es) w
            (λ v. unreached off es v o (ground arith)))
    ]
    | inr u ↦ elim (Bool-cases (same m n)) [
      | inl e ↦ rw u (unreached (prefix ∷ off) es w (u, o) (ground arith))
      | inr e ↦ rw u (unreached off es w o (ground arith))
    ]
  ]
  unreached off (Entry.route k pattern h ∷ es) w o c =
      elim (Bool-cases (router.matches k pattern method path)) [
        | inr e ↦ rw e (unreached off es w o (ground arith))
        | inl e ↦ elim (Bool-cases (protects m h)) [
          | inr p ↦ rw e (agree h p w)
          | inl p ↦
              let inside : any (starts_with pattern) off ≡ true = ground arith in
              let (prefix, starts, past) =
                off_group (λ q. router.under q path) pattern off o inside in
              absurd (ground (arith, groups.covers k pattern method path prefix e starts))
        ]
      ]
  unreached off (Entry.otherwise h ∷ es) w o c = agree h (ground arith) w

  -- A middleware that lets nothing pass shuts off every handler that it protects: whatever those
  -- handlers would do, the request is answered the same. The session and the CSRF token protect
  -- every handler but the probes, the build information and the two steps of the sign-in; the
  -- limit protects every handler but the probes; the others protect every handler. It is supposed
  -- that a group's middleware runs for every path of the group.
  pub serve-Shuts :
      (w : W)
      → serve router run answer method path stack w ≡ serve router run answer' method path stack w
  serve-Shuts w = unreached [] stack w tt (stack-is_covered m)
