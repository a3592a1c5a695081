-- ===== src/Sqlite/Refinement.antt =====
-- internal/store/sqlite/sqlite.go: the tables implement the maps of the store.
pub mod Views
pub mod UserSteps
pub mod AccountSteps
pub mod SessionSteps
pub mod PreferenceSteps
pub mod Sequences
use mera_drive.Base.{
  ℕ, String, Bool, true, false, not, ◌&&◌, ◌||◌, ◌≡◌, refl, sym, ◌∙◌, ap, inl, inr, arith, Option,
  none, some, List, [], ◌∷◌, ◌++◌, ◌==◌, eq_iff, any, select, find_first, All, Bool-cases,
  if◌then◌else◌,
}
use mera_drive.Base.Result.{Result, ok, err}
use mera_drive.Apperr.{Failure}
use mera_drive.Sqlite.Rows.{Distinct}
use mera_drive.Sqlite.Tables.{Preference, Tables, update_where}
use mera_drive.Sqlite.Maps.{kept, changed, added}

module _ {A : Type 0} (p : A → Bool) where
  -- A row that is added is found where no other was.
  pub find_first-append :
      (xs : List A) (x : A) → find_first p (xs ++ x ∷ []) ≡ added p x (find_first p xs)
  find_first-append [] x = refl
  find_first-append (y ∷ ys) x = ground (arith, find_first-append ys x)

  -- A change that leaves the key alone.
  pub find_first-update_where :
      (t : A → Bool) (f : A → A) (xs : List A)
      → ((x : A) → p (f x) ≡ p x)
      → find_first p (update_where t f xs) ≡ changed t f (find_first p xs)
  unfolding update_where
  find_first-update_where t f [] k = refl
  find_first-update_where t f (x ∷ xs) k = ground (arith, k x, find_first-update_where t f xs k)

  no_other :
      (same : A → A → Bool) (x : A) (xs : List A)
      → ((y : A) → p y ≡ true → same x y ≡ true)
      → All (λ y. same x y ≡ false) xs
      → (t : A → Bool) → find_first p (select t xs) ≡ none
  no_other same x [] k h t = refl
  no_other same x (y ∷ ys) k (q, h) t = ground (arith, k y, no_other same x ys k h t)

  -- Where the key is unique, a row that is taken away leaves no other behind.
  pub find_first-select :
      (same : A → A → Bool) (t : A → Bool) (xs : List A)
      → ((x y : A) → p x ≡ true → p y ≡ true → same x y ≡ true)
      → Distinct same xs
      → find_first p (select t xs) ≡ kept t (find_first p xs)
  find_first-select same t [] k h = refl
  find_first-select same t (x ∷ xs) k (q, h) = elim (Bool-cases (p x)) [
    | inl e ↦ elim (Bool-cases (t x)) [
      | inl f ↦ rw (e, f) (rw e refl)
      | inr f ↦ rw (e, f) (no_other same x xs (λ y. k x y e) q t)
    ]
    | inr e ↦ elim (Bool-cases (t x)) [
      | inl f ↦ rw (e, f) (rw e (find_first-select same t xs k h))
      | inr f ↦ rw (e, f) (find_first-select same t xs k h)
    ]
  ]
