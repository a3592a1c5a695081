-- ===== src/Server/Start/Laws.antt =====
-- internal/server/routes_auth.go, handleAuthStart: who is sent to Google, and with what.
use mera_drive.Base.{
  ℕ, ◌+◌, ◌*◌, ◌/◌, ◌≤◌, ◌≡◌, ◌≢◌, ◌⊎◌, refl, inl, inr, arith, String, Bool, true, false, not, ◌&&◌,
  List, [], ◌∷◌, ◌++◌, ◌==◌, eq_iff, find_first, Elem, Bool-cases, Option-cases,
}
use mathlib.Core.Path.{subst}
use mera_drive.Base.Result.{Result, ok, Result-cases}
use mera_drive.Apperr.{Failure}
use mera_drive.Google.Errors.{second}
use mera_drive.Google.Identity.{identity_scopes}
use mera_drive.Store.{User, Account, Session, is_valid_scope}
use mera_drive.Sqlite.Tables.{Tables}
use mera_drive.Sqlite.Rows.{find_first-Elem}
use mera_drive.Sqlite.Accounts
use mera_drive.Auth.SignIn.{
  Signer, State, is_valid_intent, requires_session, requires_account, stamped, state_ttl,
  sign_state, verify_state,
}
use mera_drive.Auth.SignIn.Trip.{RoundTrips, verify_state-sign_state}
use mera_drive.Auth.Cookies.{CookieOptions, set_state_cookie}
use mera_drive.Auth.Sessions.{Crypto, or_error, resolve}
use mera_drive.Auth.Sessions.Laws.{Opens, resolve-Opens}
use mera_drive.Server.Linking.{is_full}
use mera_drive.Server.SignIn.{drive_scope_url}
use mera_drive.Server.Start.{
  StartRequest, Redirect, is_upgrade, intent_of, scope_of, account_of, state_of, check_parameters,
  check_target, handle_auth_start,
}

-- A signed-in user, whose account the target is where there is one.
pub record Owns (crypto : Crypto) (r : StartRequest) (now : ℕ) (t : Tables) : Type 0 where
  pub user : User
  pub session : Session
  pub opens : Opens crypto r.session_cookie now t user session
  pub target :
      (account_of r ≡ "")
      ⊎ ((a : Account) × Elem a (resolve crypto r.session_cookie now t).1.accounts
          × (Accounts.is_row user.id (account_of r) a ≡ true))

check_target-Owns :
    (crypto : Crypto) (r : StartRequest) (now : ℕ) (t : Tables)
    → (check_target crypto r now t).0 ≡ ok tt
    → requires_session (intent_of r) ≡ true
    → Owns crypto r now t
unfolding check_target or_error Accounts.get
check_target-Owns crypto r now t h k =
    elim (Result-cases (resolve crypto r.session_cookie now t).0) [
      | inr (f, e) ↦ absurd (ground arith)
      | inl ((u, s), e) ↦
          let t' = (resolve crypto r.session_cookie now t).1 in
          let opens = resolve-Opens crypto r.session_cookie now t u s e in
          elim (Bool-cases (account_of r == "")) [
            | inl z ↦ record {
              user = u;
              session = s;
              opens = opens;
              target = inl ((eq_iff (account_of r) "").0 z);
            }
            | inr z ↦
                elim (Option-cases (find_first (Accounts.is_row u.id (account_of r)) t'.accounts)) [
                  | inl f ↦ absurd (ground arith)
                  | inr (a, f) ↦
                      let (stored, row) =
                        find_first-Elem (Accounts.is_row u.id (account_of r)) t'.accounts a f in
                      record { user = u; session = s; opens = opens; target = inr (a, stored, row) }
                ]
          ]
    ]

and_false : (a b : Bool) → (a && b) ≡ false → a ≡ true → b ≡ false
and_false true b h k = h
and_false false b h k = absurd (ground arith)

check_parameters-ok :
    (r : StartRequest)
    → check_parameters r ≡ ok tt
    → (is_valid_intent (intent_of r) ≡ true)
      × (is_valid_scope (scope_of r) ≡ true)
      × ((is_upgrade (intent_of r) ≡ true) → is_full (scope_of r) ≡ true)
      × ((requires_account (intent_of r) ≡ true) → account_of r ≢ "")
unfolding check_parameters
check_parameters-ok r h = elim (Bool-cases (is_valid_intent (intent_of r))) [
  | inr i ↦ absurd (ground arith)
  | inl i ↦ elim (Bool-cases (is_valid_scope (scope_of r))) [
    | inr s ↦ absurd (ground arith)
    | inl s ↦ elim (Bool-cases (is_upgrade (intent_of r) && not (is_full (scope_of r)))) [
      | inl u ↦ absurd (ground arith)
      | inr u ↦ elim (Bool-cases (requires_account (intent_of r) && account_of r == "")) [
        | inl a ↦ absurd (ground arith)
        | inr a ↦ (
          i,
          s,
          λ up. not_not (is_full (scope_of r)) (and_false (is_upgrade (intent_of r)) _ u up),
          λ needed empty.
              not_both (account_of r == "")
                (and_false (requires_account (intent_of r)) (account_of r == "") a needed)
                ((eq_iff (account_of r) "").1 empty),
        )
      ]
    ]
  ]
]
  where
    not_not : (b : Bool) → not b ≡ false → b ≡ true
    not_not true e = refl
    not_not false e = absurd (ground arith)

    not_both : (b : Bool) → b ≡ false → b ≡ true → ⊥
    not_both b e f = ground arith

-- What a start that is not refused has checked, and what it sends and sets.
start-ok :
    (crypto : Crypto) (signer : Signer) (options : CookieOptions)
    (auth_code_url : String → List String → String) (nonce : Result Failure String)
    (r : StartRequest) (now : ℕ) (t : Tables) (sent : Redirect)
    → (handle_auth_start crypto signer options auth_code_url nonce r now t).0 ≡ ok sent
    → (check_parameters r ≡ ok tt)
      × ((check_target crypto r now t).0 ≡ ok tt)
      × ((token : String) × (secret : String) × (sign_state signer nonce now (state_of r)
            ≡ ok (token, secret))
          × (sent ≡ record {
            location = auth_code_url token (identity_scopes ++ drive_scope_url (scope_of r) ∷ []);
            cookies = set_state_cookie options secret now;
          }))
unfolding handle_auth_start
start-ok crypto signer options auth_code_url nonce r now t sent h =
    elim (Result-cases (check_parameters r)) [
      | inr (f, c) ↦ absurd (ground arith)
      | inl (x, c) ↦ elim (Result-cases (check_target crypto r now t).0) [
        | inr (f, d) ↦ absurd (ground arith)
        | inl (y, d) ↦ elim (Result-cases (sign_state signer nonce now (state_of r))) [
          | inr (f, e) ↦ absurd (ground arith)
          | inl ((token, secret), e) ↦ (c, d, (token, secret, e, ground arith))
        ]
      ]
    ]

sign_state-nonce :
    (signer : Signer) (nonce : String) (state : State) (now : ℕ) (token secret : String)
    → sign_state signer (ok nonce) now state ≡ ok (token, secret)
    → secret ≡ nonce
unfolding sign_state
sign_state-nonce signer nonce state now token secret h =
    elim (Result-cases (signer.marshal (stamped state nonce now))) [
      | inr (f, e) ↦ absurd (ground arith)
      | inl (payload, e) ↦ ground arith
    ]

-- What a start that is not refused has checked.
pub record MayStart (crypto : Crypto) (r : StartRequest) (now : ℕ) (t : Tables) : Type 0 where
  pub known_intent : is_valid_intent (intent_of r) ≡ true
  pub known_scope : is_valid_scope (scope_of r) ≡ true
  pub widening : (is_upgrade (intent_of r) ≡ true) → is_full (scope_of r) ≡ true
  pub named : (requires_account (intent_of r) ≡ true) → account_of r ≢ ""
  pub owned : (requires_session (intent_of r) ≡ true) → Owns crypto r now t

-- The browser is sent to Google only for a known intent and scope, to upgrade only for the full
-- scope, to reconnect or upgrade only with an account id, and, unless it signs in, only for a
-- user whom the session cookie opens and who owns the account that is named, if one is.
pub handle_auth_start-MayStart :
    (crypto : Crypto) (signer : Signer) (options : CookieOptions)
    (auth_code_url : String → List String → String) (nonce : Result Failure String)
    (r : StartRequest) (now : ℕ) (t : Tables) (sent : Redirect)
    → (handle_auth_start crypto signer options auth_code_url nonce r now t).0 ≡ ok sent
    → MayStart crypto r now t
handle_auth_start-MayStart crypto signer options auth_code_url nonce r now t sent h =
    let (parameters, target, _) =
      start-ok crypto signer options auth_code_url nonce r now t sent h in
    let (intent, scope, full, named) = check_parameters-ok r parameters in
    record {
      known_intent = intent;
      known_scope = scope;
      widening = full;
      named = named;
      owned = check_target-Owns crypto r now t target;
    }

-- The round trip through Google's consent screen: when a start is not refused and JSON, base64
-- and the HMAC can be undone at its state, the URL carries a state token, the browser gets one
-- cookie, and within fifteen minutes that token with that cookie's nonce is accepted and gives
-- the intent, the scope, the account and the return path of the start.
pub verify_state-handle_auth_start :
    (crypto : Crypto) (signer : Signer) (options : CookieOptions)
    (auth_code_url : String → List String → String) (nonce : String) (r : StartRequest)
    (now later : ℕ) (t : Tables) (sent : Redirect)
    → (handle_auth_start crypto signer options auth_code_url (ok nonce) r now t).0 ≡ ok sent
    → RoundTrips signer (stamped (state_of r) nonce now)
    → nonce ≢ ""
    → now ≤ later
    → later ≤ now / second * second + state_ttl
    → (token : String) × (sent.location
        ≡ auth_code_url token (identity_scopes ++ drive_scope_url (scope_of r) ∷ []))
      × (sent.cookies ≡ set_state_cookie options nonce now)
      × (verify_state signer token nonce later ≡ ok (stamped (state_of r) nonce now))
verify_state-handle_auth_start crypto signer options auth_code_url nonce r now later t sent h trips
      n a b =
    let (parameters, target, (token, secret, signed, form)) =
      start-ok crypto signer options auth_code_url (ok nonce) r now t sent h in
    let (intent, _, _, _) = check_parameters-ok r parameters in
    let same = sign_state-nonce signer nonce (state_of r) now token secret signed in
    (
      token,
      ground arith,
      ground arith,
      verify_state-sign_state signer (state_of r) nonce token now later trips
          (subst (λ x. sign_state signer (ok nonce) now (state_of r) ≡ ok (token, x)) same signed) n
          intent a b,
    )
