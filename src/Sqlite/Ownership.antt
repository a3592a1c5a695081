-- ===== src/Sqlite/Ownership.antt =====
-- internal/store/sqlite/sqlite.go: whose accounts the statements show.
use mera_drive.Base.{
  String, Bool, true, false, not, ◌||◌, ◌≡◌, inl, inr, refl, arith, eq_iff, some, List, [], ◌∷◌,
  ◌++◌, ◌==◌, any, select, find_first, All, Bool-cases, if◌then◌else◌,
}
use mera_drive.Base.Result.{Result, ok, err}
use mera_drive.Base.Sorting.{sort_stable, All-sort_stable}
use mera_drive.Store.{Account, is_valid_scope}
use mera_drive.Apperr.{Failure}
use mera_drive.Sqlite.Tables.{Tables, has_user}
use mera_drive.Sqlite.Accounts
use mera_drive.Sqlite.Users

abbrev pub Shows : (Account → Type 0) → Result Failure (List Account) → Type 0
Shows P (ok rows) = All P rows
Shows P (err e) = ⊥

All-select-true : (t : Account → Bool) (rows : List Account) → All (λ a. t a ≡ true) (select t rows)
All-select-true t [] = tt
All-select-true t (a ∷ rows) = ground (arith, All-select-true t rows)

find_first-append :
    (t : Account → Bool) (rows : List Account) (a : Account)
    → any t rows ≡ false
    → t a ≡ true
    → find_first t (rows ++ a ∷ []) ≡ some a
find_first-append t [] a h k = ground arith
find_first-append t (b ∷ rows) a h k = ground (arith, find_first-append t rows a)

-- When an account was created without an error, the look-up by its user and Google identity finds
-- it.
pub get_by_google_id-create :
    (a : Account) (t : Tables)
    → (Accounts.create a t).0 ≡ ok tt
    → (Accounts.get_by_google_id a.user_id a.google_user_id (Accounts.create a t).1).0 ≡ ok a
unfolding Accounts.create Accounts.get_by_google_id
get_by_google_id-create a t h = elim (Bool-cases (is_valid_scope a.scope)) [
  | inr e ↦ absurd (ground arith)
  | inl e ↦
      elim (Bool-cases (
        any (λ b. b.id == a.id) t.accounts
        || any (Accounts.is_link a.user_id a.google_user_id) t.accounts)) [
          | inl e' ↦ absurd (ground arith)
          | inr e' ↦ elim (Bool-cases (has_user t.users a.user_id)) [
            | inr e'' ↦ absurd (ground arith)
            | inl e'' ↦
                rw
                  (
                    e,
                    e',
                    e'',
                    find_first-append (Accounts.is_link a.user_id a.google_user_id) t.accounts a
                        (ground arith)
                        (ground (
                          arith,
                          eq_iff a.user_id a.user_id,
                          eq_iff a.google_user_id a.google_user_id,
                        )),
                  )
                  refl
          ]
        ]
]

-- The listing of a user's accounts succeeds and holds accounts of that user only.
pub list-Owned :
    (user_id : String) (t : Tables)
    → Shows (λ a. (a.user_id == user_id) ≡ true) (Accounts.list user_id t).0
unfolding Accounts.list Accounts.before
list-Owned user_id t =
    All-sort_stable Accounts.before (λ a. (a.user_id == user_id) ≡ true)
      (select (λ a. a.user_id == user_id) t.accounts)
      (All-select-true (λ a. a.user_id == user_id) t.accounts)

select-gone :
    (gone user_id : String) (rows : List Account)
    → select (λ a. a.user_id == user_id) (select (λ a. not (a.user_id == gone)) rows)
      ≡ (if user_id == gone then [] else select (λ a. a.user_id == user_id) rows)
select-gone gone user_id [] = ground arith
select-gone gone user_id (a ∷ rows) = ground (
  arith,
  select-gone gone user_id rows,
  eq_iff a.user_id user_id,
  eq_iff a.user_id gone,
  eq_iff user_id gone,
)

-- After a user is deleted without an error the listing of that user's accounts is empty, and the
-- listing of any other user's accounts is what it was.
pub list-delete :
    (gone user_id : String) (t : Tables)
    → (Users.delete gone t).0 ≡ ok tt
    → (Accounts.list user_id (Users.delete gone t).1).0
      ≡ (if user_id == gone then ok [] else (Accounts.list user_id t).0)
unfolding Users.delete Accounts.list sort_stable
list-delete gone user_id t h = elim (Bool-cases (has_user t.users gone)) [
  | inr e ↦ absurd (ground arith)
  | inl e ↦ elim (Bool-cases (user_id == gone)) [
    | inl e' ↦ rw (e, select-gone gone user_id t.accounts, e') refl
    | inr e' ↦ rw (e, select-gone gone user_id t.accounts, e') refl
  ]
]
