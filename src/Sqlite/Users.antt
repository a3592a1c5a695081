-- ===== src/Sqlite/Users.antt =====
-- internal/store/sqlite/sqlite.go: the table of users.
use mera_drive.Base.{ℕ, String, not, ◌||◌, [], ◌∷◌, ◌++◌, ◌==◌, any, select, find_first}
use mera_drive.Base.Result.{ok}
use mera_drive.Store.{User}
use mera_drive.Sqlite.Tables.{Statement, found, update_where, affected, unique, has_user}

unfoldable pub create : User → Statement (Unit {0})
create u t =
    unique (any (λ v. v.id == u.id) t.users || any (λ v. v.email == u.email) t.users)
      (λ t'. (ok tt, record t' { users = t'.users ++ u ∷ [] })) t

unfoldable pub get_by_id : String → Statement User
get_by_id id t = found (find_first (λ u. u.id == id) t.users) t

unfoldable pub get_by_email : String → Statement User
get_by_email email t = found (find_first (λ u. u.email == email) t.users) t

unfoldable pub update_profile : String → String → String → ℕ → Statement (Unit {0})
unfolding update_where
update_profile id name avatar_url now t =
    affected (has_user t.users id)
      (record t {
        users =
            update_where (λ u. u.id == id)
              (λ u. record u { name = name; avatar_url = avatar_url; updated_at = now }) t.users;
      })
      t

-- The rows that refer to the user go with it (ON DELETE CASCADE).
unfoldable pub delete : String → Statement (Unit {0})
delete id t =
    affected (has_user t.users id)
      (record {
        users = select (λ u. not (u.id == id)) t.users;
        accounts = select (λ a. not (a.user_id == id)) t.accounts;
        sessions = select (λ s. not (s.user_id == id)) t.sessions;
        preferences = select (λ p. not (p.user_id == id)) t.preferences;
      })
      t
