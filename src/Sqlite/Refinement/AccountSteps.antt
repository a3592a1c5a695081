-- ===== src/Sqlite/Refinement/AccountSteps.antt =====
-- internal/store/sqlite/sqlite.go: the statements on accounts, on the maps of the store.
use mera_drive.Base.{
  ℕ, String, Bool, not, ◌||◌, ◌≡◌, refl, inl, inr, some, [], ◌∷◌, ◌++◌, ◌==◌, any, select,
  Bool-cases,
}
use mera_drive.Store.{AccountStatus, Account, is_valid_scope}
use mera_drive.Sqlite.Tables.{Tables, update_where, has_user}
use mera_drive.Sqlite.Accounts
use mera_drive.Sqlite.Accounts.{is_row, updated}
use mera_drive.Sqlite.Invariant.{IsSound, same_account_id}
use mera_drive.Sqlite.Commands.{Command, execute}
use mera_drive.Sqlite.Maps.{view, changed, effect}
use mera_drive.Sqlite.Refinement.{find_first-append, find_first-update_where, find_first-select}
use mera_drive.Sqlite.Refinement.Views.{
  Step, accepts, with_accounts, one_account, accepted-Step, refused-Step,
}

-- Commands that change some accounts in place.
accounts_changed :
    (t : Tables) (test : Account → Bool) (f : Account → Account)
    → ((u k : String) (a : Account) → is_row u k (f a) ≡ is_row u k a)
    → view (record t { accounts = update_where test f t.accounts })
      ≡ record (view t) { account = λ u k. changed test f ((view t).account u k) }
accounts_changed t test f k =
    with_accounts t _ _ (λ u id. find_first-update_where (is_row u id) test f t.accounts (k u id))

pub create_account-Step : (a : Account) (t : Tables) → Step (Command.create_account a) t
unfolding execute accepts effect Accounts.create
create_account-Step a t = elim (Bool-cases (is_valid_scope a.scope)) [
  | inr e ↦ refused-Step (Command.create_account a) t (rw (execute, e) refl) (rw (accepts, e) refl)
  | inl e ↦
      elim (Bool-cases (
        any (λ b. b.id == a.id) t.accounts
        || any (Accounts.is_link a.user_id a.google_user_id) t.accounts)) [
          | inl f ↦
              refused-Step (Command.create_account a) t (rw (execute, e, f) refl)
                (rw (accepts, e, f) refl)
          | inr f ↦ elim (Bool-cases (has_user t.users a.user_id)) [
            | inr g ↦
                refused-Step (Command.create_account a) t (rw (execute, e, f, g) refl)
                  (rw (accepts, e, f, g) refl)
            | inl g ↦
                accepted-Step (Command.create_account a) t
                  (record t { accounts = t.accounts ++ a ∷ [] }) (rw (execute, e, f, g) refl)
                  (rw (accepts, e, f, g) refl)
                  (with_accounts t (t.accounts ++ a ∷ []) _
                    (λ u k. find_first-append (is_row u k) t.accounts a))
          ]
        ]
]

pub update_account-Step :
    (a : Account) (now : ℕ) (t : Tables) → Step (Command.update_account a now) t
unfolding execute accepts effect Accounts.update updated
update_account-Step a now t = elim (Bool-cases (any (is_row a.user_id a.id) t.accounts)) [
  | inr e ↦
      refused-Step (Command.update_account a now) t (rw (execute, e) refl) (rw (accepts, e) refl)
  | inl e ↦ elim (Bool-cases (is_valid_scope a.scope)) [
    | inr f ↦
        refused-Step (Command.update_account a now) t (rw (execute, e, f) refl)
          (rw (accepts, e, f) refl)
    | inl f ↦
        accepted-Step (Command.update_account a now) t
          (record t { accounts = update_where (is_row a.user_id a.id) (updated a now) t.accounts })
          (rw (execute, e, f) refl) (rw (accepts, e, f) refl)
          (accounts_changed t (is_row a.user_id a.id) (updated a now) (λ u k b. refl))
  ]
]

pub set_status-Step :
    (id : String) (status : AccountStatus) (now : ℕ) (t : Tables)
    → Step (Command.set_account_status id status now) t
unfolding execute accepts effect Accounts.set_status
set_status-Step id status now t = elim (Bool-cases (any (λ a. a.id == id) t.accounts)) [
  | inr e ↦
      refused-Step (Command.set_account_status id status now) t (rw (execute, e) refl)
        (rw (accepts, e) refl)
  | inl e ↦
      accepted-Step (Command.set_account_status id status now) t
        (record t {
          accounts =
              update_where (λ a. a.id == id) (λ a. record a { status = status; updated_at = now })
                t.accounts;
        })
        (rw (execute, e) refl) (rw (accepts, e) refl)
        (accounts_changed t (λ a. a.id == id) (λ a. record a { status = status; updated_at = now })
          (λ u k b. refl))
]

pub touch_account-Step : (id : String) (at : ℕ) (t : Tables) → Step (Command.touch_account id at) t
unfolding execute accepts effect Accounts.touch
touch_account-Step id at t = elim (Bool-cases (any (λ a. a.id == id) t.accounts)) [
  | inr e ↦
      refused-Step (Command.touch_account id at) t (rw (execute, e) refl) (rw (accepts, e) refl)
  | inl e ↦
      accepted-Step (Command.touch_account id at) t
        (record t {
          accounts =
              update_where (λ a. a.id == id) (λ a. record a { last_used_at = some at }) t.accounts;
        })
        (rw (execute, e) refl) (rw (accepts, e) refl)
        (accounts_changed t (λ a. a.id == id) (λ a. record a { last_used_at = some at })
          (λ u k b. refl))
]

pub delete_account-Step :
    (user_id id : String) (t : Tables) → IsSound t → Step (Command.delete_account user_id id) t
unfolding execute accepts effect Accounts.delete
delete_account-Step user_id id t h = elim (Bool-cases (any (is_row user_id id) t.accounts)) [
  | inr e ↦
      refused-Step (Command.delete_account user_id id) t (rw (execute, e) refl)
        (rw (accepts, e) refl)
  | inl e ↦
      accepted-Step (Command.delete_account user_id id) t
        (record t { accounts = select (λ a. not (is_row user_id id a)) t.accounts })
        (rw (execute, e) refl) (rw (accepts, e) refl)
        (with_accounts t _ _ (λ u k.
          find_first-select (is_row u k) same_account_id (λ a. not (is_row user_id id a)) t.accounts
            (one_account u k) h.account_ids))
]
