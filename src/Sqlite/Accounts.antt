-- ===== src/Sqlite/Accounts.antt =====
-- internal/store/sqlite/sqlite.go: the table of linked Google accounts.
use mera_drive.Base.{
  ℕ, String, Bool, not, ◌&&◌, ◌||◌, some, List, [], ◌∷◌, ◌++◌, ◌==◌, any, select, find_first,
  if◌then◌else◌,
}
use mera_drive.Base.Result.{ok}
use mera_drive.Base.Order.{compare_ℕ, or_else, is_lt}
use mera_drive.Base.Sorting.{sort_stable}
use mera_drive.Store.{AccountStatus, Account, is_valid_scope}
use mera_drive.Sqlite.Times.{compare_time}
use mera_drive.Sqlite.Tables.{Statement, broken, found, update_where, affected, unique, has_user}

abbrev pub is_row : String → String → Account → Bool
is_row user_id account_id a = a.user_id == user_id && a.id == account_id

abbrev pub is_link : String → String → Account → Bool
is_link user_id google_user_id a = a.user_id == user_id && a.google_user_id == google_user_id

-- The CHECK of the scope, the unique columns, and the reference to the user.
unfoldable pub create : Account → Statement (Unit {0})
create a t =
    if not (is_valid_scope a.scope)
    then broken "CHECK constraint failed" t
    else unique
        (any (λ b. b.id == a.id) t.accounts || any (is_link a.user_id a.google_user_id) t.accounts)
        (λ t'.
          if has_user t'.users a.user_id
          then (ok tt, record t' { accounts = t'.accounts ++ a ∷ [] })
          else broken "FOREIGN KEY constraint failed" t')
        t

unfoldable pub get : String → String → Statement Account
get user_id account_id t = found (find_first (is_row user_id account_id) t.accounts) t

unfoldable pub get_by_google_id : String → String → Statement Account
get_by_google_id user_id google_user_id t =
    found (find_first (is_link user_id google_user_id) t.accounts) t

-- ORDER BY sort_order ASC, connected_at ASC
unfoldable pub before : Account → Account → Bool
before a b =
    is_lt
      (or_else (compare_ℕ a.sort_order b.sort_order) (compare_time a.connected_at b.connected_at))

unfoldable pub list : String → Statement (List Account)
unfolding before
list user_id t = (ok (sort_stable before (select (λ a. a.user_id == user_id) t.accounts)), t)

unfoldable pub updated : Account → ℕ → Account → Account
updated a now row = record row {
  email = a.email;
  name = a.name;
  avatar_url = a.avatar_url;
  scope = a.scope;
  status = a.status;
  refresh_token_enc = a.refresh_token_enc;
  sort_order = a.sort_order;
  last_used_at = a.last_used_at;
  updated_at = now;
}

unfoldable pub update : Account → ℕ → Statement (Unit {0})
unfolding update_where updated
update a now t =
    if any (is_row a.user_id a.id) t.accounts && not (is_valid_scope a.scope)
    then broken "CHECK constraint failed" t
    else affected (any (is_row a.user_id a.id) t.accounts)
        (record t { accounts = update_where (is_row a.user_id a.id) (updated a now) t.accounts }) t

unfoldable pub set_status : String → AccountStatus → ℕ → Statement (Unit {0})
unfolding update_where
set_status account_id status now t =
    affected (any (λ a. a.id == account_id) t.accounts)
      (record t {
        accounts =
            update_where (λ a. a.id == account_id)
              (λ a. record a { status = status; updated_at = now }) t.accounts;
      })
      t

unfoldable pub touch : String → ℕ → Statement (Unit {0})
unfolding update_where
touch account_id at t =
    affected (any (λ a. a.id == account_id) t.accounts)
      (record t {
        accounts =
            update_where (λ a. a.id == account_id) (λ a. record a { last_used_at = some at })
              t.accounts;
      })
      t

unfoldable pub delete : String → String → Statement (Unit {0})
delete user_id account_id t =
    affected (any (is_row user_id account_id) t.accounts)
      (record t { accounts = select (λ a. not (is_row user_id account_id a)) t.accounts }) t
