-- ===== src/Accounts/Wired/Doors.antt =====
-- internal/accounts/service.go, AccessTokenFor and Disconnect, over the store and the token
-- manager.
use mera_drive.Base.{
  String, Bool, true, false, not, ◌≡◌, inl, inr, refl, arith, eq_iff, some, none, List, [], ◌∷◌,
  any, select, find_first, Elem, Bool-cases, Option-cases,
}
use mathlib.Core.Path.{sym}
use mera_drive.Base.Result.{Result, ok, err, Result-cases}
use mera_drive.Store.{Account, is_disconnected}
use mera_drive.Apperr.{Failure, Fault}
use mera_drive.Sqlite.Tables.{Tables}
use mera_drive.Sqlite.Rows.{find_first-Elem}
use mera_drive.Sqlite.Accounts
use mera_drive.Google.Tokens.{cached}
use mera_drive.Google.Tokens.Cache.{cached-forget}
use mera_drive.Accounts.{
  or_error, store_error, token_of, access_token_for, access_token_for_account, disconnect,
  revoke_grant,
}
use mera_drive.Accounts.Wired.{State, Outside, wired}

-- An access token is handed out only with an account that stands in the table, belongs to the
-- user who asks, has the id that was asked for, and is not disconnected.
pub access_token_for-Owned :
    {W : Type 0} (out : Outside W) (user_id id token : String) (a : Account) (s : State W)
    → (access_token_for (wired out) user_id id s).0 ≡ ok (a, token)
    → Elem a s.tables.accounts
      × (Accounts.is_row user_id id a ≡ true)
      × (is_disconnected a.status ≡ false)
unfolding access_token_for or_error token_of Accounts.get
access_token_for-Owned out user_id id token a s h =
    elim (Option-cases (find_first (Accounts.is_row user_id id) s.tables.accounts)) [
      | inl e ↦ absurd (ground arith)
      | inr (b, e) ↦ elim (Bool-cases (is_disconnected b.status)) [
        | inl d ↦ absurd (ground arith)
        | inr d ↦ elim (Result-cases (access_token_for_account (wired out) b s).0) [
          | inl (t, g) ↦
              let same : b ≡ a = ground arith in
              let (m, r) = find_first-Elem (Accounts.is_row user_id id) s.tables.accounts b e in
              rw (sym same) (m, r, d)
          | inr (f, g) ↦ absurd (ground arith)
        ]
      ]
    ]

find_first-select :
    (t : Account → Bool) (rows : List Account) → find_first t (select (λ a. not (t a)) rows) ≡ none
find_first-select t [] = refl
find_first-select t (a ∷ rows) = ground (arith, find_first-select t rows)

-- The statement that ends a disconnection, on tables where the account is.
delete-get :
    (user_id id : String) (t : Tables)
    → (Accounts.delete user_id id t).0 ≡ ok tt
    → (Accounts.get user_id id (Accounts.delete user_id id t).1).0 ≡ err Failure.store_not_found
unfolding Accounts.delete Accounts.get
delete-get user_id id t h = elim (Bool-cases (any (Accounts.is_row user_id id) t.accounts)) [
  | inr e ↦ absurd (ground arith)
  | inl e ↦ rw (e, find_first-select (Accounts.is_row user_id id) t.accounts) refl
]

-- The end of a disconnection: the cache forgets and the row goes.
module _ {W : Type 0} (out : Outside W) (user_id id fingerprint : String) where
  ending : State W → Result Fault (Unit {0}) × State W
  unfolding or_error
  ending s =
      or_error (store_error "Could not disconnect the account.")
        ((wired out).delete_account user_id id) ((wired out).forget id s)

  ending-Gone :
      (s : State W)
      → (ending s).0 ≡ ok tt
      → ((Accounts.get user_id id (ending s).1.tables).0 ≡ err Failure.store_not_found)
        × (cached out.refresher id fingerprint (ending s).1.manager ≡ none)
  unfolding ending or_error store_error
  ending-Gone s h = elim (Result-cases (Accounts.delete user_id id s.tables).0) [
    | inr (f, e) ↦ absurd (ground arith)
    | inl (u, e) ↦ (
      ground (arith, delete-get user_id id s.tables),
      ground (arith, cached-forget out.refresher id id fingerprint s.manager, eq_iff id id),
    )
  ]

  disconnect-ending :
      (b : Account) (s : State W)
      → find_first (Accounts.is_row user_id id) s.tables.accounts ≡ some b
      → disconnect (wired out) user_id id s ≡ ending (revoke_grant (wired out) b s)
  unfolding disconnect or_error Accounts.get ending
  disconnect-ending b s e = ground arith

-- After an account is disconnected without an error, the user has no account of that id, and no
-- token of it is cached for any refresh token.
pub disconnect-Gone :
    {W : Type 0} (out : Outside W) (user_id id fingerprint : String) (s : State W)
    → (disconnect (wired out) user_id id s).0 ≡ ok tt
    → ((Accounts.get user_id id (disconnect (wired out) user_id id s).1.tables).0
        ≡ err Failure.store_not_found)
      × (cached out.refresher id fingerprint (disconnect (wired out) user_id id s).1.manager ≡ none)
unfolding disconnect or_error store_error Accounts.get
disconnect-Gone out user_id id fingerprint s h =
    elim (Option-cases (find_first (Accounts.is_row user_id id) s.tables.accounts)) [
      | inl e ↦ absurd (ground arith)
      | inr (b, e) ↦
          let same = disconnect-ending out user_id id fingerprint b s e in
          rw same (
            ending-Gone out user_id id fingerprint (revoke_grant (wired out) b s) (rw (sym same) h))
    ]
