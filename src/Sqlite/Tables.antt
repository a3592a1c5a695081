-- ===== src/Sqlite/Tables.antt =====
-- internal/store/sqlite: the tables, each the list of its rows in the order of insertion, and
-- what the statements share.
use mera_drive.Base.{ℕ, String, Bool, Option, none, some, List, [], ◌∷◌, ◌==◌, any, if◌then◌else◌}
use mera_drive.Base.Result.{Result, ok, err, Act}
use mera_drive.Apperr.{Failure}
use mera_drive.Store.{User, Account, Session}

pub record Preference : Type 0 where
  pub user_id : String
  pub key : String
  pub value : String
  pub updated_at : ℕ

pub record Tables : Type 0 where
  pub users : List User
  pub accounts : List Account
  pub sessions : List Session
  pub preferences : List Preference

-- What one statement does to the tables when it is not disturbed.
abbrev pub Statement : Type 0 → Type 0
Statement A = Act Tables Failure A

abbrev pub broken : {A : Type 0} → String → Statement A
broken what t = (err (Failure.other what), t)

-- `wrapRead`
abbrev pub found : {A : Type 0} → Option A → Statement A
found none t = (err Failure.store_not_found, t)
found (some a) t = (ok a, t)

-- Rows of an UPDATE: those that pass the test are changed.
unfoldable pub update_where {ℓ} : {A : Type ℓ} → (A → Bool) → (A → A) → List A → List A
update_where p f [] = []
update_where p f (x ∷ xs) = (if p x then f x else x) ∷ update_where p f xs

-- `affectedOne`, by whether a row passed the test.
abbrev pub affected : Bool → Tables → Tables → Result Failure (Unit {0}) × Tables
affected hit after before = if hit then (ok tt, after) else (err Failure.store_not_found, before)

abbrev pub unique : Bool → Statement (Unit {0}) → Statement (Unit {0})
unique taken go t = if taken then (err Failure.store_conflict, t) else go t

abbrev pub has_user : List User → String → Bool
has_user users id = any (λ u. u.id == id) users
