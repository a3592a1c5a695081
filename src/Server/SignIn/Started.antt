-- ===== src/Server/SignIn/Started.antt =====
-- internal/server/routes_auth.go, completeLogin: the session that a login ends with.
use mera_drive.Base.{String, ◌≡◌, inl, inr, arith}
use mera_drive.Base.Result.{ok, err, Result-cases}
use mera_drive.Apperr.{Failure}
use mera_drive.Store.{Scope, scope_of_text}
use mera_drive.Sqlite.Tables.{Tables}
use mera_drive.Auth.SignIn.{Intent, State}
use mera_drive.Auth.Sessions.{Crypto, issue}
use mera_drive.Google.Identity.{Profile}
use mera_drive.Server.Linking.{Fresh}
use mera_drive.Server.SignIn.{Request, Outside, Site, complete_login, complete, complete_oauth}
use mera_drive.Base.{ℕ}

module _ (crypto : Crypto) (ttl : ℕ) (fresh : Fresh) (request : Request) where
  login_failed :
      (profile : Profile) (scope : Scope) (sealed email : String) (f : Failure) (t : Tables)
      → fresh.session_token ≡ err f
      → (complete_login crypto ttl fresh request profile scope sealed t).0 ≡ ok email
      → ⊥
  unfolding complete_login issue
  login_failed profile scope sealed email f t e h = ground arith

  complete_failed :
      (state : State) (profile : Profile) (scope : Scope) (sealed email : String) (f : Failure)
      (t : Tables)
      → state.intent ≡ Intent.login
      → fresh.session_token ≡ err f
      → (complete crypto ttl fresh request state profile scope sealed t).0 ≡ ok email
      → ⊥
  unfolding complete
  complete_failed state profile scope sealed email f t i e h =
      ground (arith, login_failed profile scope sealed email f t)

  -- A login is done only when there was a token for its session.
  pub login-session_token :
      {W : Type 0} (out : Outside W) (state : State) (code email : String) (s : Site W)
      → state.intent ≡ Intent.login
      → (complete_oauth crypto ttl fresh request out state code s).0 ≡ ok email
      → (token : String) × (fresh.session_token ≡ ok token)
  unfolding complete_oauth
  login-session_token out state code email s i h = elim (Result-cases fresh.session_token) [
    | inl (t, e) ↦ (t, e)
    | inr (f, e) ↦ absurd (elim (Result-cases (out.exchange code s.world).0) [
      | inr (g, a) ↦ ground arith
      | inl (token, a) ↦
          elim (Result-cases (out.profile token.access_token (out.exchange code s.world).1).0) [
            | inr (g, b) ↦ ground arith
            | inl (profile, b) ↦ elim (Result-cases (out.seal_refresh_token token.refresh_token)) [
              | inr (g, c) ↦ ground arith
              | inl (sealed, c) ↦ ground (
                arith,
                complete_failed state profile (scope_of_text state.scope) sealed email f s.tables,
              )
            ]
          ]
    ])
  ]
