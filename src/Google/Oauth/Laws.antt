-- ===== src/Google/Oauth/Laws.antt =====
-- internal/google/oauth.go: what the answers of Google come to.
use mera_drive.Base.{
  ℕ, ◌≡◌, ◌≢◌, ◌⊎◌, ◌↔◌, ◌∙◌, refl, ap, inl, inr, arith, String, Bool, true, false, ◌||◌, Option,
  none, [], ◌==◌, eqb, eq_iff, Bool-cases, Option-cases,
}
use mera_drive.Base.Result.{ok, err, Result-cases}
use mera_drive.Apperr.{Code, Error, app, error, with_cause}
use mera_drive.Google.Identity.{Profile}
use mera_drive.Google.OauthErrors.{
  OauthFailure, retrieve, unreachable, map_retrieve, map_oauth_error,
}
use mera_drive.Google.Oauth.{
  Authenticator, Client, Incoming, oauth_config, no_credentials, profile_request, revoke_request,
  refresh, read_profile, profile, revoke,
}

abbrev pub is_reauth : Code → Bool
is_reauth Code.reauth_required = true
is_reauth _ = false

map_retrieve-Reauth :
    (code : String) (status : Option ℕ)
    → (is_reauth (map_retrieve code status).0 ≡ true) ↔ (code ≡ "invalid_grant")
unfolding map_retrieve
map_retrieve-Reauth code status = elim (Bool-cases (code == "invalid_grant")) [
  | inl e ↦ rw e (λ h. (eq_iff code "invalid_grant").0 e, λ h. refl)
  | inr e ↦ (λ h. absurd (ground arith), λ h. absurd (ground (arith, eq_iff code "invalid_grant")))
]

-- An error of the token endpoint asks for a new connection exactly when Google says
-- `invalid_grant`.
map_oauth_error-Reauth :
    (f : OauthFailure)
    → (is_reauth (map_oauth_error f).code ≡ true)
      ↔ ((status : Option ℕ) × (f ≡ retrieve "invalid_grant" status))
unfolding map_oauth_error with_cause error
map_oauth_error-Reauth (unreachable f) =
    (λ h. absurd (ground arith), λ (s, e). absurd (ground arith))
map_oauth_error-Reauth (retrieve code status) = (
  λ h. (status, ap (λ c. retrieve c status) ((map_retrieve-Reauth code status).0 h)),
  λ (s, e). (map_retrieve-Reauth code status).1 (ground arith),
)

read_profile-ok :
    {W : Type 0} (client : Client W) (a : Authenticator) (resp : Incoming) (p : Profile)
    → read_profile client a resp ≡ ok p
    → (p.sub ≢ "")
      × (p.email ≢ "")
      × ((body : String) × (resp ≡ record { status = 200; body = ok body })
          × (client.unmarshal body ≡ ok p))
unfolding read_profile
read_profile-ok client a resp p h = elim (Result-cases resp.body) [
  | inr (f, b) ↦ absurd (ground arith)
  | inl (body, b) ↦ elim (Bool-cases (eqb resp.status 200)) [
    | inr s ↦ absurd (ground arith)
    | inl s ↦ elim (Result-cases (client.unmarshal body)) [
      | inr (f, u) ↦ absurd (ground arith)
      | inl (q, u) ↦ elim (Bool-cases (q.sub == "" || q.email == "")) [
        | inl z ↦ absurd (ground arith)
        | inr z ↦
            let same : q ≡ p = ground arith in
            (
              λ e. ground (arith, eq_iff p.sub ""),
              λ e. ground (arith, eq_iff p.email ""),
              (body, ground arith, ground arith),
            )
      ]
    ]
  ]
]

module _ {W : Type 0} (client : Client W) (a : Authenticator) where
  -- A renewal ends with the demand to connect the account again exactly when there is no stored
  -- credential, or Google has rejected it as an invalid grant; no outage, no wrong client and no
  -- server error leads to it.
  pub refresh-Reauth_iff :
      (refresh_token : String) (w : W)
      → ((e : Error) × ((refresh client a refresh_token w).0 ≡ err (app e))
          × (is_reauth e.code ≡ true))
        ↔ ((refresh_token ≡ "")
            ⊎ ((refresh_token ≢ "")
                × ((status : Option ℕ) × ((client.refresh_with
                        (oauth_config a [])
                        refresh_token
                        w).0
                      ≡ err (retrieve "invalid_grant" status)))))
  unfolding refresh error
  refresh-Reauth_iff refresh_token w = elim (Bool-cases (refresh_token == "")) [
    | inl z ↦ (λ h. inl ((eq_iff refresh_token "").0 z), λ h. (no_credentials, rw z refl, refl))
    | inr z ↦
        let filled : refresh_token ≢ "" = λ e. ground (arith, eq_iff refresh_token "") in
        elim (Result-cases (client.refresh_with (oauth_config a []) refresh_token w).0) [
          | inl (tok, e) ↦ (λ (f, same, r). absurd (ground arith), λ h. absurd (ground arith))
          | inr (f, e) ↦ (
            λ (g, same, r).
                let (status, form) = (map_oauth_error-Reauth f).0 (ground arith) in
                inr (filled, (status, ground arith)),
            λ h. elim h [
              | inl empty ↦ absurd (filled empty)
              | inr (_, (status, same)) ↦ (
                map_oauth_error f,
                ground arith,
                (map_oauth_error-Reauth f).1 (status, ground arith),
              )
            ],
          )
        ]
  ]

  -- A profile is returned only from a response with status 200 to the request for it, whose body
  -- was read and parsed, and it has an identifier and an address.
  pub profile-Identified :
      (access_token : String) (w : W) (p : Profile)
      → (profile client a access_token w).0 ≡ ok p
      → (p.sub ≢ "")
        × (p.email ≢ "")
        × ((body : String) × ((client.send (profile_request a access_token) w).0
              ≡ ok (record { status = 200; body = ok body }))
            × (client.unmarshal body ≡ ok p))
  unfolding profile
  profile-Identified access_token w p h =
      elim (Option-cases (client.build (profile_request a access_token))) [
        | inr (f, b) ↦ absurd (ground arith)
        | inl b ↦ elim (Result-cases (client.send (profile_request a access_token) w).0) [
          | inr (f, e) ↦ absurd (ground arith)
          | inl (resp, e) ↦
              let read : read_profile client a resp ≡ ok p = ground arith in
              let (sub, email, (body, form, parsed)) = read_profile-ok client a resp p read in
              (sub, email, (body, e ∙ ap ok form, parsed))
        ]
      ]

  -- A revocation has no error exactly when the request could be built and Google answered it by
  -- 200, or by 400, which it says of a token that is revoked already.
  pub revoke-ok_iff :
      (token : String) (w : W)
      → ((revoke client a token w).0 ≡ ok tt) ↔ (
          (resp : Incoming) × (client.build (revoke_request a token) ≡ none)
          × ((client.send (revoke_request a token) w).0 ≡ ok resp)
          × ((resp.status ≡ 200) ⊎ (resp.status ≡ 400)))
  unfolding revoke
  revoke-ok_iff token w = elim (Option-cases (client.build (revoke_request a token))) [
    | inr (f, b) ↦
        (λ h. absurd (ground arith), λ (resp, built, sent, status). absurd (ground arith))
    | inl b ↦ elim (Result-cases (client.send (revoke_request a token) w).0) [
      | inr (f, e) ↦
          (λ h. absurd (ground arith), λ (resp, built, sent, status). absurd (ground arith))
      | inl (resp, e) ↦
          (λ h. (resp, b, e, ground arith), λ (other, built, sent, status). ground arith)
    ]
  ]
