-- ===== src/Sqlite/Invariant.antt =====
-- internal/store/sqlite/migrations/0001_init.sql: the keys, unique indexes, checks and
-- references, as an invariant of the tables.
pub mod UserRows
pub mod AccountRows
pub mod SessionRows
pub mod PreferenceRows
use mera_drive.Base.{
  ℕ, String, Bool, true, false, not, ◌&&◌, ◌||◌, ◌≡◌, ◌≢◌, ◌⊎◌, inl, inr, refl, arith, eq_iff,
  Option, some, none, List, [], ◌∷◌, ◌++◌, ◌==◌, any, select, find_first, All, All-append,
  All-select, Elem, Bool-cases, if◌then◌else◌,
}
use mera_drive.Store.{Scope, AccountStatus, User, Account, Session, is_valid_scope}
use mera_drive.Sqlite.Tables.{Preference, Tables, update_where, has_user}
use mera_drive.Sqlite.Rows.{
  Distinct, Distinct-append, Distinct-select, Distinct-update_where, All-update_where_kept,
}
use mera_drive.Sqlite.Users
use mera_drive.Sqlite.Accounts
use mera_drive.Sqlite.Sessions
use mera_drive.Sqlite.Preferences

abbrev pub same_user_id : User → User → Bool
same_user_id u v = u.id == v.id

abbrev pub same_email : User → User → Bool
same_email u v = u.email == v.email

abbrev pub same_account_id : Account → Account → Bool
same_account_id a b = a.id == b.id

-- The unique index over (user_id, google_user_id).
abbrev pub same_link : Account → Account → Bool
same_link a b = Accounts.is_link b.user_id b.google_user_id a

abbrev pub same_session_id : Session → Session → Bool
same_session_id r s = r.id == s.id

abbrev pub same_hash : Session → Session → Bool
same_hash r s = r.token_hash == s.token_hash

abbrev pub same_key : Preference → Preference → Bool
same_key p q = Preferences.is_pref q.user_id q.key p

abbrev pub KnownUser : List User → String → Type 0
KnownUser users id = has_user users id ≡ true

-- What the schema promises of the tables.
pub record IsSound (t : Tables) : Type 0 where
  pub user_ids : Distinct same_user_id t.users
  pub emails : Distinct same_email t.users
  pub account_ids : Distinct same_account_id t.accounts
  pub links : Distinct same_link t.accounts
  pub session_ids : Distinct same_session_id t.sessions
  pub hashes : Distinct same_hash t.sessions
  pub keys : Distinct same_key t.preferences
  pub scopes : All (λ a. is_valid_scope a.scope ≡ true) t.accounts
  pub account_users : All (λ a. KnownUser t.users a.user_id) t.accounts
  pub session_users : All (λ s. KnownUser t.users s.user_id) t.sessions
  pub preference_users : All (λ p. KnownUser t.users p.user_id) t.preferences

pub has_user-append :
    (users : List User) (u : User) (id : String)
    → KnownUser users id
    → KnownUser (users ++ u ∷ []) id
has_user-append [] u id h = cc
has_user-append (v ∷ users) u id h = ground (arith, has_user-append users u id)

pub has_user-update_where :
    (t : User → Bool) (f : User → User) (users : List User) (id : String)
    → ((u : User) → (f u).id ≡ u.id)
    → KnownUser users id
    → KnownUser (update_where t f users) id
unfolding update_where
has_user-update_where t f [] id k h = cc
has_user-update_where t f (u ∷ users) id k h =
    ground (arith, k u, has_user-update_where t f users id k)

-- A user who is not deleted is still there.
has_user-select :
    (users : List User) (gone id : String)
    → KnownUser users id
    → (id == gone) ≡ false
    → KnownUser (select (λ u. not (u.id == gone)) users) id
has_user-select [] gone id h k = cc
has_user-select (u ∷ users) gone id h k =
    ground (arith, has_user-select users gone id, eq_iff u.id id, eq_iff u.id gone, eq_iff id gone)

-- The references of the rows that a deleted user leaves.
pub known_after_delete :
    {A : Type 0} (user_of : A → String) (users : List User) (gone : String) (rows : List A)
    → All (λ a. KnownUser users (user_of a)) rows
    → All
        (λ a. KnownUser (select (λ u. not (u.id == gone)) users) (user_of a))
        (select (λ a. not (user_of a == gone)) rows)
known_after_delete user_of users gone [] h = tt
known_after_delete user_of users gone (a ∷ rows) (p, h) =
    ground
      (arith, has_user-select users gone (user_of a), known_after_delete user_of users gone rows h)

pub All-map :
    {A : Type 0} (P Q : A → Type 0) (rows : List A)
    → ((a : A) → P a → Q a)
    → All P rows
    → All Q rows
All-map P Q [] k h = tt
All-map P Q (a ∷ rows) k (p, h) = (k a p, All-map P Q rows k h)
