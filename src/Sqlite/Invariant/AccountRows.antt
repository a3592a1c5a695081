-- ===== src/Sqlite/Invariant/AccountRows.antt =====
-- internal/store/sqlite/sqlite.go: the statements on accounts and the invariant.
use mera_drive.Base.{
  ℕ, String, Bool, true, ◌||◌, ◌≡◌, inl, inr, refl, arith, List, [], ◌∷◌, ◌++◌, ◌==◌, any, All,
  All-append, All-select, Bool-cases,
}
use mera_drive.Store.{AccountStatus, Account, is_valid_scope}
use mera_drive.Sqlite.Tables.{Tables, update_where, has_user}
use mera_drive.Sqlite.Rows.{
  Distinct, Distinct-append, Distinct-select, Distinct-update_where, All-update_where_kept,
}
use mera_drive.Sqlite.Invariant.{IsSound, KnownUser, same_account_id, same_link}
use mera_drive.Sqlite.Accounts

-- A state that differs in its accounts alone.
module _ (t : Tables) (h : IsSound t) where
  with_accounts :
      (rows : List Account)
      → Distinct same_account_id rows
      → Distinct same_link rows
      → All (λ a. is_valid_scope a.scope ≡ true) rows
      → All (λ a. KnownUser t.users a.user_id) rows
      → IsSound (record t { accounts = rows })
  with_accounts rows ids links scopes users = record {
    user_ids = h.user_ids;
    emails = h.emails;
    account_ids = ids;
    links = links;
    session_ids = h.session_ids;
    hashes = h.hashes;
    keys = h.keys;
    scopes = scopes;
    account_users = users;
    session_users = h.session_users;
    preference_users = h.preference_users;
  }

  -- A change of columns that no key, check or reference reads.
  changed :
      (test : Account → Bool) (change : Account → Account)
      → ((a : Account)
          → ((change a).id ≡ a.id)
            × ((change a).user_id ≡ a.user_id)
            × ((change a).google_user_id ≡ a.google_user_id))
      → ((a : Account) → is_valid_scope a.scope ≡ true → is_valid_scope (change a).scope ≡ true)
      → IsSound (record t { accounts = update_where test change t.accounts })
  changed test change k s =
      with_accounts _
        (Distinct-update_where same_account_id test change t.accounts
          (λ a b. (rw (k a).0, rw (k b).0)) h.account_ids)
        (Distinct-update_where same_link test change t.accounts
          (λ a b. (rw ((k a).1, (k a).2), rw ((k b).1, (k b).2))) h.links)
        (All-update_where_kept (λ a. is_valid_scope a.scope ≡ true) test change t.accounts s
          h.scopes)
        (All-update_where_kept (λ a. KnownUser t.users a.user_id) test change t.accounts
          (λ a p. rw (k a).1 p) h.account_users)

pub create-IsSound : (a : Account) (t : Tables) → IsSound t → IsSound (Accounts.create a t).1
unfolding Accounts.create
create-IsSound a t h = elim (Bool-cases (is_valid_scope a.scope)) [
  | inr e ↦ rw e h
  | inl e ↦
      elim (Bool-cases (
        any (λ b. b.id == a.id) t.accounts
        || any (Accounts.is_link a.user_id a.google_user_id) t.accounts)) [
          | inl e' ↦ rw (e, e') h
          | inr e' ↦ elim (Bool-cases (has_user t.users a.user_id)) [
            | inr e'' ↦ rw (e, e', e'') h
            | inl e'' ↦
                rw (e, e', e'')
                  (with_accounts t h (t.accounts ++ a ∷ [])
                    (Distinct-append same_account_id t.accounts a h.account_ids (ground arith))
                    (Distinct-append same_link t.accounts a h.links (ground arith))
                    (All-append (λ b. is_valid_scope b.scope ≡ true) t.accounts (a ∷ []) h.scopes
                      (e, tt))
                    (All-append (λ b. KnownUser t.users b.user_id) t.accounts (a ∷ [])
                      h.account_users (e'', tt)))
          ]
        ]
]

pub update-IsSound :
    (a : Account) (now : ℕ) (t : Tables) → IsSound t → IsSound (Accounts.update a now t).1
unfolding Accounts.update Accounts.updated
update-IsSound a now t h = elim (Bool-cases (any (Accounts.is_row a.user_id a.id) t.accounts)) [
  | inr e ↦ rw e h
  | inl e ↦ elim (Bool-cases (is_valid_scope a.scope)) [
    | inr e' ↦ rw (e, e') h
    | inl e' ↦
        rw (e, e')
          (changed t h (Accounts.is_row a.user_id a.id) (Accounts.updated a now)
            (λ b. (refl, refl, refl)) (λ b p. e'))
  ]
]

pub set_status-IsSound :
    (id : String) (status : AccountStatus) (now : ℕ) (t : Tables)
    → IsSound t
    → IsSound (Accounts.set_status id status now t).1
unfolding Accounts.set_status
set_status-IsSound id status now t h = elim (Bool-cases (any (λ a. a.id == id) t.accounts)) [
  | inr e ↦ rw e h
  | inl e ↦ rw e (changed t h _ _ (λ a. (refl, refl, refl)) (λ a p. p))
]

pub touch-IsSound :
    (id : String) (at : ℕ) (t : Tables) → IsSound t → IsSound (Accounts.touch id at t).1
unfolding Accounts.touch
touch-IsSound id at t h = elim (Bool-cases (any (λ a. a.id == id) t.accounts)) [
  | inr e ↦ rw e h
  | inl e ↦ rw e (changed t h _ _ (λ a. (refl, refl, refl)) (λ a p. p))
]

pub delete-IsSound :
    (user_id id : String) (t : Tables) → IsSound t → IsSound (Accounts.delete user_id id t).1
unfolding Accounts.delete
delete-IsSound user_id id t h = elim (Bool-cases (any (Accounts.is_row user_id id) t.accounts)) [
  | inr e ↦ rw e h
  | inl e ↦ rw e (
      with_accounts t h _ (Distinct-select same_account_id _ t.accounts h.account_ids)
        (Distinct-select same_link _ t.accounts h.links)
        (All-select (λ a. is_valid_scope a.scope ≡ true) _ t.accounts h.scopes)
        (All-select (λ a. KnownUser t.users a.user_id) _ t.accounts h.account_users))
]
