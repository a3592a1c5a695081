-- ===== src/Sqlite/Preferences.antt =====
-- internal/store/sqlite/sqlite.go: the table of preferences.
use mera_drive.Base.{
  ℕ, String, Bool, not, ◌&&◌, List, [], ◌∷◌, ◌++◌, ◌==◌, any, select, map, if◌then◌else◌,
}
use mera_drive.Base.Result.{ok}
use mera_drive.Sqlite.Tables.{Preference, Statement, broken, update_where, has_user}

abbrev pub is_pref : String → String → Preference → Bool
is_pref user_id key p = p.user_id == user_id && p.key == key

unfoldable pub get : String → Statement (List (String × String))
get user_id t =
    (ok (map (λ p. (p.key, p.value)) (select (λ p. p.user_id == user_id) t.preferences)), t)

-- INSERT … ON CONFLICT (user_id, key) DO UPDATE
unfoldable pub set : String → String → String → ℕ → Statement (Unit {0})
unfolding update_where
set user_id key value now t =
    if any (is_pref user_id key) t.preferences
    then (
      ok tt,
      record t {
        preferences =
            update_where (is_pref user_id key) (λ p. record p { value = value; updated_at = now })
              t.preferences;
      },
    )
    else if has_user t.users user_id
    then (
      ok tt,
      record t {
        preferences =
            t.preferences
            ++ record { user_id = user_id; key = key; value = value; updated_at = now } ∷ [];
      },
    )
    else broken "FOREIGN KEY constraint failed" t

unfoldable pub delete : String → String → Statement (Unit {0})
delete user_id key t =
    (ok tt, record t { preferences = select (λ p. not (is_pref user_id key p)) t.preferences })
