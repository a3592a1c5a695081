-- ===== src/Server/Linking/Rows.antt =====
-- internal/store/sqlite/sqlite.go: the accounts of a user under the statements that a link uses.
use mera_drive.Base.{
  ℕ, suc, ◌≤◌, String, Bool, true, ◌≡◌, inl, inr, refl, arith, some, List, [], ◌∷◌, ◌++◌, ◌==◌, any,
  select, find_first, length, Bool-cases,
}
use mera_drive.Base.Result.{ok}
use mera_drive.Base.Sorting.{length-sort_stable}
use mera_drive.Store.{Account, is_valid_scope}
use mera_drive.Sqlite.Tables.{Tables, update_where}
use mera_drive.Sqlite.Accounts

-- The rows of a user.
abbrev pub owned : String → Account → Bool
owned user_id a = a.user_id == user_id

abbrev pub count : String → Tables → ℕ
count user_id t = length (select (owned user_id) t.accounts)

pub length-list :
    (user_id : String) (t : Tables) (rows : List Account)
    → (Accounts.list user_id t).0 ≡ ok rows
    → length rows ≡ count user_id t
unfolding Accounts.list
length-list user_id t rows h =
    ground (arith, length-sort_stable Accounts.before (select (owned user_id) t.accounts))

find_first-update_where :
    (p q : Account → Bool) (f : Account → Account) (rows : List Account) (a : Account)
    → ((b : Account) → p (f b) ≡ p b)
    → find_first p rows ≡ some a
    → q a ≡ true
    → find_first p (update_where q f rows) ≡ some (f a)
unfolding update_where
find_first-update_where p q f [] a k h e = absurd (ground arith)
find_first-update_where p q f (b ∷ rows) a k h e =
    ground (arith, k b, find_first-update_where p q f rows a k)

length-select-update_where :
    (p q : Account → Bool) (f : Account → Account) (rows : List Account)
    → ((b : Account) → p (f b) ≡ p b)
    → length (select p (update_where q f rows)) ≡ length (select p rows)
unfolding update_where
length-select-update_where p q f [] k = refl
length-select-update_where p q f (b ∷ rows) k =
    ground (arith, k b, length-select-update_where p q f rows k)

length-select-append :
    (p : Account → Bool) (rows : List Account) (a : Account)
    → length (select p (rows ++ a ∷ [])) ≤ suc (length (select p rows))
length-select-append p [] a = ground arith
length-select-append p (b ∷ rows) a = ground (arith, length-select-append p rows a)

pub count-update :
    (user_id : String) (a : Account) (now : ℕ) (t : Tables)
    → count user_id (Accounts.update a now t).1 ≡ count user_id t
unfolding Accounts.update Accounts.updated
count-update user_id a now t = ground (
  arith,
  length-select-update_where (owned user_id) (Accounts.is_row a.user_id a.id)
      (Accounts.updated a now) t.accounts (λ b. refl),
)

pub count-create :
    (user_id : String) (a : Account) (t : Tables)
    → count user_id (Accounts.create a t).1 ≤ suc (count user_id t)
unfolding Accounts.create
count-create user_id a t = ground (arith, length-select-append (owned user_id) t.accounts a)

is_link-updated :
    (user_id google_user_id : String) (a : Account) (now : ℕ) (b : Account)
    → Accounts.is_link user_id google_user_id (Accounts.updated a now b)
      ≡ Accounts.is_link user_id google_user_id b
unfolding Accounts.updated
is_link-updated user_id google_user_id a now b = refl

-- A row that an update which succeeds has changed is found with its new columns.
pub get_by_google_id-update :
    (user_id google_user_id : String) (a b : Account) (now : ℕ) (t : Tables)
    → (Accounts.update a now t).0 ≡ ok tt
    → find_first (Accounts.is_link user_id google_user_id) t.accounts ≡ some b
    → Accounts.is_row a.user_id a.id b ≡ true
    → (Accounts.get_by_google_id user_id google_user_id (Accounts.update a now t).1).0
      ≡ ok (Accounts.updated a now b)
unfolding Accounts.update Accounts.get_by_google_id
get_by_google_id-update user_id google_user_id a b now t h e r =
    let moved =
      find_first-update_where (Accounts.is_link user_id google_user_id)
        (Accounts.is_row a.user_id a.id) (Accounts.updated a now) t.accounts b
        (is_link-updated user_id google_user_id a now) e r in
    elim (Bool-cases (any (Accounts.is_row a.user_id a.id) t.accounts)) [
      | inr f ↦ absurd (ground arith)
      | inl f ↦ elim (Bool-cases (is_valid_scope a.scope)) [
        | inr g ↦ absurd (ground arith)
        | inl g ↦ ground arith
      ]
    ]
