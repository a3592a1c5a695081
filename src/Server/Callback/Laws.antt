-- ===== src/Server/Callback/Laws.antt =====
-- internal/server/routes_auth.go, handleAuthCallback: where the browser ends up, and what a
-- forged callback can do.
use mera_drive.Base.{ℕ, ◌≡◌, ◌⊎◌, refl, inl, inr, String, ◌==◌, Bool-cases, eq_iff, arith}
use mera_drive.Base.Result.{ok, Result-cases}
use mera_drive.Auth.SignIn.{State, Signer, verify_state}
use mera_drive.Auth.Cookies.{CookieOptions}
use mera_drive.Auth.Sessions.{Crypto}
use mera_drive.Server.Linking.{Fresh}
use mera_drive.Server.SignIn.{Outside, Site, complete_oauth}
use mera_drive.Server.Callback.{Texts, CallbackRequest, not_granted, finish, handle_auth_callback}
use mera_drive.Server.Callback.Home.{IsHome, denied, refused, root-IsSent, finish-IsHome}

module _ (texts : Texts) (base : String) (crypto : Crypto) (signer : Signer)
    (options : CookieOptions) (ttl : ℕ) (fresh : Fresh) {W : Type 0} (out : Outside W) where
  -- Every callback sends the browser into the web application and deletes the cookie of the state,
  -- and has one of four ends. When Google reports an error or the state is refused, the browser
  -- is sent to "/" with that failure and no other cookie. When the state is accepted, it is sent
  -- to the path that the state names if that is on this site, and to "/" otherwise: with the
  -- failure and no other cookie when there is no code or the sign-in fails, and with the intent
  -- and the e-mail when it is done, a login with the cookies of its new session and another
  -- intent with none.
  pub handle_auth_callback-IsHome :
      (r : CallbackRequest) (s : Site W)
      → IsHome texts base crypto signer options ttl fresh out r s
          (handle_auth_callback texts base crypto signer options ttl fresh out r s).0
  unfolding handle_auth_callback
  handle_auth_callback-IsHome r s = elim (Bool-cases (r.google_error == "")) [
    | inr e ↦ denied (ground (arith, eq_iff r.google_error "")) (
        rw e
          (root-IsSent texts base crypto signer options ttl fresh out (not_granted r.google_error)))
    | inl e ↦
        let granted = (eq_iff r.google_error "").0 e in
        elim (Result-cases (verify_state signer r.state r.state_cookie fresh.now)) [
          | inr (f, v) ↦
              refused f granted v
                (rw (e, v) (root-IsSent texts base crypto signer options ttl fresh out f))
          | inl (state, v) ↦
              rw (e, v)
                (finish-IsHome texts base crypto signer options ttl fresh out r state s granted v)
        ]
  ]

  -- A callback that changes anything, in the tables or outside, carries a state token that is
  -- accepted with the nonce of the browser's own cookie; then what it does is the sign-in of that
  -- state with the code.
  pub handle_auth_callback-Signed :
      (r : CallbackRequest) (s : Site W)
      → ((handle_auth_callback texts base crypto signer options ttl fresh out r s).1 ≡ s)
        ⊎ ((state : State) × (verify_state signer r.state r.state_cookie fresh.now ≡ ok state)
            × ((handle_auth_callback texts base crypto signer options ttl fresh out r s).1
                ≡ (complete_oauth crypto ttl fresh r.request out state r.code s).1))
  unfolding handle_auth_callback finish
  handle_auth_callback-Signed r s = elim (Bool-cases (r.google_error == "")) [
    | inr e ↦ inl (rw e refl)
    | inl e ↦ elim (Result-cases (verify_state signer r.state r.state_cookie fresh.now)) [
      | inr (f, v) ↦ inl (rw (e, v) refl)
      | inl (state, v) ↦ elim (Bool-cases (r.code == "")) [
        | inl c ↦ inl (rw (e, v, c) refl)
        | inr c ↦
            elim (Result-cases (complete_oauth crypto ttl fresh r.request out state r.code s).0) [
              | inr (f, d) ↦ inr (state, v, rw (e, v, c, d) refl)
              | inl (email, d) ↦ inr (state, v, rw (e, v, c, d) refl)
            ]
      ]
    ]
  ]
