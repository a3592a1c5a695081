-- ===== src/Accounts/Wired/Rows.antt =====
-- internal/store/sqlite/sqlite.go: the row of an account under an update, as the accounts service
-- sees it.
use mera_drive.Base.{
  ℕ, String, Bool, true, false, ◌≡◌, ◌∙◌, ap, inl, inr, refl, arith, eq_iff, Option, some, List, [],
  ◌∷◌, ◌==◌, any, find_first, Elem, Elem-of_All, Bool-cases, Option-cases, if◌then◌else◌,
}
use mera_drive.Base.Result.{ok}
use mera_drive.Store.{Account, is_valid_scope}
use mera_drive.Sqlite.Tables.{Tables, update_where}
use mera_drive.Sqlite.Rows.{Distinct, find_first-Elem}
use mera_drive.Sqlite.Maps.{changed}
use mera_drive.Sqlite.Refinement.{find_first-update_where}
use mera_drive.Sqlite.Accounts
use mera_drive.Sqlite.Invariant.{same_account_id}
use mera_drive.Accounts.Order.{lookup, ids_of}

-- The row of an account of a user.
abbrev pub row_of : String → String → Tables → Option Account
row_of user_id id t = find_first (Accounts.is_row user_id id) t.accounts

update-rows :
    (a : Account) (now : ℕ) (t : Tables)
    → (Accounts.update a now t).0 ≡ ok tt
    → (Accounts.update a now t).1.accounts
      ≡ update_where (Accounts.is_row a.user_id a.id) (Accounts.updated a now) t.accounts
unfolding Accounts.update
update-rows a now t h = elim (Bool-cases (any (Accounts.is_row a.user_id a.id) t.accounts)) [
  | inr f ↦ absurd (ground arith)
  | inl f ↦ elim (Bool-cases (is_valid_scope a.scope)) [
    | inr g ↦ absurd (ground arith)
    | inl g ↦ ground arith
  ]
]

pub row_of-update :
    (user_id id : String) (a : Account) (now : ℕ) (t : Tables)
    → (Accounts.update a now t).0 ≡ ok tt
    → row_of user_id id (Accounts.update a now t).1
      ≡ changed (Accounts.is_row a.user_id a.id) (Accounts.updated a now) (row_of user_id id t)
unfolding Accounts.updated
row_of-update user_id id a now t h =
    ap (find_first (Accounts.is_row user_id id)) (update-rows a now t h)
    ∙ find_first-update_where (Accounts.is_row user_id id) (Accounts.is_row a.user_id a.id)
        (Accounts.updated a now) t.accounts (λ x. refl)

-- A row of a unique id is the one that is found.
pub find_first-Distinct :
    (p : Account → Bool) (xs : List Account) (x : Account)
    → Distinct same_account_id xs
    → ((y : Account) → p y ≡ true → y.id ≡ x.id)
    → Elem x xs
    → p x ≡ true
    → find_first p xs ≡ some x
find_first-Distinct p [] x d same m h = absurd m
find_first-Distinct p (y ∷ ys) x (fresh, d) same (inl e) h = ground arith
find_first-Distinct p (y ∷ ys) x (fresh, d) same (inr m) h =
    let other = Elem-of_All (λ z. same_account_id y z ≡ false) ys x fresh m in
    elim (Bool-cases (p y)) [
      | inl e ↦ absurd (ground (arith, same y e, eq_iff y.id x.id))
      | inr e ↦ rw e (find_first-Distinct p ys x d same m h)
    ]

pub lookup-some :
    (id : String) (stored : List Account) (a : Account)
    → lookup id stored ≡ some a
    → Elem a stored × (a.id ≡ id)
unfolding lookup
lookup-some id [] a h = absurd (ground arith)
lookup-some id (b ∷ stored) a h = elim (Option-cases (lookup id stored)) [
  | inr (c, e) ↦
      let same : c ≡ a = ground arith in
      let (m, i) = lookup-some id stored a (ground arith) in (inr m, i)
  | inl e ↦ elim (Bool-cases (b.id == id)) [
    | inl q ↦ let same : b ≡ a = ground arith in (inl same, ground (arith, eq_iff b.id id))
    | inr q ↦ absurd (ground arith)
  ]
]

pub chosen : {A : Type 0} (b : Bool) (x y : A) → b ≡ true → (if b then x else y) ≡ x
chosen b x y e = rw e refl

module _ (b : Account) (now : ℕ) where
  pub sort_updated : (a : Account) → (Accounts.updated b now a).sort_order ≡ b.sort_order
  unfolding Accounts.updated
  sort_updated a = refl

  -- An update of one account leaves the rows of other ids alone.
  pub untouched :
      (user_id k : String) (t : Tables)
      → (b.id == k) ≡ false
      → changed (Accounts.is_row b.user_id b.id) (Accounts.updated b now) (row_of user_id k t)
        ≡ row_of user_id k t
  untouched user_id k t n = elim (Option-cases (row_of user_id k t)) [
    | inl e ↦ rw e refl
    | inr (c, e) ↦
        let (m, row) = find_first-Elem (Accounts.is_row user_id k) t.accounts c e in
        let apart : Accounts.is_row b.user_id b.id c ≡ false =
          ground (arith, eq_iff c.id k, eq_iff c.id b.id, eq_iff b.id k) in
        rw e (rw apart refl)
  ]

pub known-lookup :
    (id : String) (stored : List Account)
    → Elem id (ids_of stored)
    → (a : Account) × (lookup id stored ≡ some a)
unfolding lookup
known-lookup id [] m = absurd m
known-lookup id (b ∷ stored) m = elim (Option-cases (lookup id stored)) [
  | inr (c, e) ↦ (c, ground arith)
  | inl e ↦ elim m [
    | inl q ↦ (b, ground (arith, eq_iff b.id id))
    | inr n ↦ let (c, f) = known-lookup id stored n in absurd (ground arith)
  ]
]
