-- ===== src/Server/Linking/Laws.antt =====
-- internal/server/routes_auth.go: the rows of a user before and after a link.
use mera_drive.Base.{
  ◌≤◌, String, false, ◌≡◌, inl, inr, refl, sym, arith, eq_iff, none, some, select, find_first, leb,
  Bool-cases, Option-cases, if◌then◌else◌,
}
use mera_drive.Base.Result.{Result, ok, err, Result-cases}
use mera_drive.Base.Sorting.{length-sort_stable}
use mera_drive.Apperr.{Failure}
use mera_drive.Store.{Scope, AccountStatus, Account}
use mera_drive.Sqlite.Tables.{Tables}
use mera_drive.Sqlite.Accounts
use mera_drive.Sqlite.Ownership.{get_by_google_id-create}
use mera_drive.Auth.Sessions.{or_error}
use mera_drive.Google.Identity.{Profile}
use mera_drive.Server.Linking.Rows.{
  count, owned, count-update, count-create, get_by_google_id-update,
}
use mera_drive.Server.Linking.{Fresh, refreshed, new_account, connect, refresh, upsert_account}

module _ (fresh : Fresh) (user_id : String) (profile : Profile) (scope : Scope) (sealed : String)
    (t : Tables) where
  -- The two branches of a link, by the look-up of the identity.
  upsert_account-connect :
      find_first (Accounts.is_link user_id profile.sub) t.accounts ≡ none
      → upsert_account fresh user_id profile scope sealed t
        ≡ connect fresh user_id profile scope sealed t
  unfolding upsert_account Accounts.get_by_google_id
  upsert_account-connect e = ground arith

  upsert_account-refresh :
      (b : Account)
      → find_first (Accounts.is_link user_id profile.sub) t.accounts ≡ some b
      → upsert_account fresh user_id profile scope sealed t ≡ refresh fresh profile scope sealed b t
  unfolding upsert_account Accounts.get_by_google_id
  upsert_account-refresh b e = ground arith

  abbrev row : Account
  row = new_account fresh user_id profile scope sealed (count user_id t)

  -- The row that a new identity gets, or the refusal.
  connect-world :
      (connect fresh user_id profile scope sealed t).1
      ≡ (if leb 50 (count user_id t) then t else (Accounts.create row t).1)
  unfolding connect or_error Accounts.list new_account
  connect-world =
      let same = length-sort_stable Accounts.before (select (owned user_id) t.accounts) in
      elim (Bool-cases (leb 50 (count user_id t))) [
        | inl e ↦ rw (same, e) refl
        | inr e ↦ elim (Result-cases (Accounts.create row t).0) [
          | inl (x, f) ↦ ground arith
          | inr (x, f) ↦ ground arith
        ]
      ]

  connect-ok :
      (a : Account)
      → (connect fresh user_id profile scope sealed t).0 ≡ ok a
      → (leb 50 (count user_id t) ≡ false) × ((Accounts.create row t).0 ≡ ok tt)
  unfolding connect or_error Accounts.list new_account
  connect-ok a h =
      let same = length-sort_stable Accounts.before (select (owned user_id) t.accounts) in
      elim (Bool-cases (leb 50 (count user_id t))) [
        | inl e ↦ absurd (ground arith)
        | inr e ↦ elim (Result-cases (Accounts.create row t).0) [
          | inl (x, f) ↦ (e, f)
          | inr (x, f) ↦ absurd (ground arith)
        ]
      ]

  refresh-world :
      (b : Account)
      → (refresh fresh profile scope sealed b t).1
        ≡ (Accounts.update (refreshed profile scope sealed b) fresh.now t).1
  unfolding refresh or_error
  refresh-world b =
      elim (Result-cases (Accounts.update (refreshed profile scope sealed b) fresh.now t).0) [
        | inl (x, f) ↦ ground arith
        | inr (x, f) ↦ ground arith
      ]

-- When the user of a link has at most fifty accounts, the user has at most fifty after it, whatever
-- its result.
pub count-upsert_account :
    (fresh : Fresh) (user_id : String) (profile : Profile) (scope : Scope) (sealed : String)
    (t : Tables)
    → count user_id t ≤ 50
    → count user_id (upsert_account fresh user_id profile scope sealed t).1 ≤ 50
count-upsert_account fresh user_id profile scope sealed t h =
    elim (Option-cases (find_first (Accounts.is_link user_id profile.sub) t.accounts)) [
      | inl e ↦
          rw
            (
              upsert_account-connect fresh user_id profile scope sealed t e,
              connect-world fresh user_id profile scope sealed t,
            )
            (ground (arith, count-create user_id (row fresh user_id profile scope sealed t) t))
      | inr (b, e) ↦
          rw
            (
              upsert_account-refresh fresh user_id profile scope sealed t b e,
              refresh-world fresh user_id profile scope sealed t b,
              count-update user_id (refreshed profile scope sealed b) fresh.now t,
            )
            h
    ]

refresh-ok :
    (fresh : Fresh) (profile : Profile) (scope : Scope) (sealed : String) (t : Tables)
    (a b : Account)
    → (refresh fresh profile scope sealed b t).0 ≡ ok a
    → (Accounts.update (refreshed profile scope sealed b) fresh.now t).0 ≡ ok tt
unfolding refresh or_error
refresh-ok fresh profile scope sealed t a b h =
    elim (Result-cases (Accounts.update (refreshed profile scope sealed b) fresh.now t).0) [
      | inl (x, f) ↦ f
      | inr (x, f) ↦ absurd (ground arith)
    ]

-- A row that a sign-in leaves for an identity.
abbrev pub Linked : String → Result Failure Account → Type 0
Linked sealed (ok a) = (a.status ≡ AccountStatus.connected) × (a.refresh_token_enc ≡ sealed)
Linked sealed (err f) = ⊥

-- After a link that succeeds, the look-up by the user and the Google identity finds a row that is
-- connected and has the new credentials, whether the identity was linked before or not.
pub upsert_account-Linked :
    (fresh : Fresh) (user_id : String) (profile : Profile) (scope : Scope) (sealed : String)
    (t : Tables) (a : Account)
    → (upsert_account fresh user_id profile scope sealed t).0 ≡ ok a
    → Linked sealed
        (Accounts.get_by_google_id user_id profile.sub
          (upsert_account fresh user_id profile scope sealed t).1).0
unfolding refreshed new_account Accounts.updated
upsert_account-Linked fresh user_id profile scope sealed t a h =
    elim (Option-cases (find_first (Accounts.is_link user_id profile.sub) t.accounts)) [
      | inl e ↦
          let same = upsert_account-connect fresh user_id profile scope sealed t e in
          let (free, created) =
            connect-ok fresh user_id profile scope sealed t a (rw (sym same) h) in
          rw
            (
              same,
              connect-world fresh user_id profile scope sealed t,
              free,
              get_by_google_id-create (row fresh user_id profile scope sealed t) t created,
            )
            (refl, refl)
      | inr (b, e) ↦
          let same = upsert_account-refresh fresh user_id profile scope sealed t b e in
          let changed = refresh-ok fresh profile scope sealed t a b (rw (sym same) h) in
          rw
            (
              same,
              refresh-world fresh user_id profile scope sealed t b,
              get_by_google_id-update user_id profile.sub (refreshed profile scope sealed b) b
                  fresh.now t changed e
                  (ground (arith, eq_iff b.user_id b.user_id, eq_iff b.id b.id)),
            )
            (refl, refl)
    ]
