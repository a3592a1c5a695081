-- ===== src/Sqlite/Refinement/UserSteps.antt =====
-- internal/store/sqlite/sqlite.go: the statements on users, on the maps of the store.
use mera_drive.Base.{
  ℕ, String, not, ◌||◌, refl, inl, inr, [], ◌∷◌, ◌++◌, ◌==◌, any, select, Bool-cases,
}
use mera_drive.Store.{User}
use mera_drive.Sqlite.Tables.{Tables, update_where, has_user}
use mera_drive.Sqlite.Users
use mera_drive.Sqlite.Accounts.{is_row}
use mera_drive.Sqlite.Preferences.{is_pref}
use mera_drive.Sqlite.Invariant.{IsSound, same_user_id, same_account_id, same_hash, same_key}
use mera_drive.Sqlite.Commands.{Command, execute}
use mera_drive.Sqlite.Maps.{effect}
use mera_drive.Sqlite.Refinement.{find_first-append, find_first-update_where, find_first-select}
use mera_drive.Sqlite.Refinement.Views.{
  Step, accepts, with_users, one_user, one_account, one_session, one_preference, accepted-Step,
  refused-Step,
}

pub create_user-Step : (u : User) (t : Tables) → Step (Command.create_user u) t
unfolding execute accepts effect Users.create
create_user-Step u t =
    elim (Bool-cases (any (λ v. v.id == u.id) t.users || any (λ v. v.email == u.email) t.users)) [
      | inl e ↦ refused-Step (Command.create_user u) t (rw (execute, e) refl) (rw (accepts, e) refl)
      | inr e ↦
          accepted-Step (Command.create_user u) t (record t { users = t.users ++ u ∷ [] })
            (rw (execute, e) refl) (rw (accepts, e) refl)
            (with_users t (t.users ++ u ∷ []) _ (λ k. find_first-append (λ v. v.id == k) t.users u))
    ]

pub update_profile-Step :
    (id name avatar_url : String) (now : ℕ) (t : Tables)
    → Step (Command.update_user_profile id name avatar_url now) t
unfolding execute accepts effect Users.update_profile
update_profile-Step id name avatar_url now t = elim (Bool-cases (has_user t.users id)) [
  | inr e ↦
      refused-Step (Command.update_user_profile id name avatar_url now) t (rw (execute, e) refl)
        (rw (accepts, e) refl)
  | inl e ↦
      accepted-Step (Command.update_user_profile id name avatar_url now) t
        (record t {
          users =
              update_where (λ u. u.id == id)
                (λ u. record u { name = name; avatar_url = avatar_url; updated_at = now }) t.users;
        })
        (rw (execute, e) refl) (rw (accepts, e) refl)
        (with_users t _ _ (λ k.
          find_first-update_where (λ v. v.id == k) (λ u. u.id == id)
            (λ u. record u { name = name; avatar_url = avatar_url; updated_at = now }) t.users
            (λ x. refl)))
]

pub delete_user-Step : (id : String) (t : Tables) → IsSound t → Step (Command.delete_user id) t
unfolding execute accepts effect Users.delete
delete_user-Step id t h = elim (Bool-cases (has_user t.users id)) [
  | inr e ↦ refused-Step (Command.delete_user id) t (rw (execute, e) refl) (rw (accepts, e) refl)
  | inl e ↦
      accepted-Step (Command.delete_user id) t
        (record {
          users = select (λ u. not (u.id == id)) t.users;
          accounts = select (λ a. not (a.user_id == id)) t.accounts;
          sessions = select (λ s. not (s.user_id == id)) t.sessions;
          preferences = select (λ p. not (p.user_id == id)) t.preferences;
        })
        (rw (execute, e) refl) (rw (accepts, e) refl)
        (λ i. record {
          user = λ k.
              find_first-select (λ u. u.id == k) same_user_id (λ u. not (u.id == id)) t.users
                (one_user k) h.user_ids i;
          account = λ u k.
              find_first-select (is_row u k) same_account_id (λ a. not (a.user_id == id)) t.accounts
                (one_account u k) h.account_ids i;
          session = λ k.
              find_first-select (λ s. s.token_hash == k) same_hash (λ s. not (s.user_id == id))
                t.sessions (one_session k) h.hashes i;
          preference = λ u k.
              find_first-select (is_pref u k) same_key (λ p. not (p.user_id == id)) t.preferences
                (one_preference u k) h.keys i;
        })
]
