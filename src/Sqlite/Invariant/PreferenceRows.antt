-- ===== src/Sqlite/Invariant/PreferenceRows.antt =====
-- internal/store/sqlite/sqlite.go: the statements on preferences and the invariant.
use mera_drive.Base.{
  ℕ, String, inl, inr, refl, List, [], ◌∷◌, ◌++◌, any, All, All-append, All-select, Bool-cases,
}
use mera_drive.Sqlite.Tables.{Preference, Tables, has_user}
use mera_drive.Sqlite.Rows.{
  Distinct, Distinct-append, Distinct-select, Distinct-update_where, All-update_where_kept,
}
use mera_drive.Sqlite.Invariant.{IsSound, KnownUser, same_key}
use mera_drive.Sqlite.Preferences

-- A state that differs in its preferences alone.
module _ (t : Tables) (h : IsSound t) where
  with_preferences :
      (rows : List Preference)
      → Distinct same_key rows
      → All (λ p. KnownUser t.users p.user_id) rows
      → IsSound (record t { preferences = rows })
  with_preferences rows keys users = record {
    user_ids = h.user_ids;
    emails = h.emails;
    account_ids = h.account_ids;
    links = h.links;
    session_ids = h.session_ids;
    hashes = h.hashes;
    keys = keys;
    scopes = h.scopes;
    account_users = h.account_users;
    session_users = h.session_users;
    preference_users = users;
  }

pub set-IsSound :
    (user_id key value : String) (now : ℕ) (t : Tables)
    → IsSound t
    → IsSound (Preferences.set user_id key value now t).1
unfolding Preferences.set
set-IsSound user_id key value now t h =
    elim (Bool-cases (any (Preferences.is_pref user_id key) t.preferences)) [
      | inl e ↦
          let test = Preferences.is_pref user_id key in
          let change = λ (p : Preference). record p { value = value; updated_at = now } in
          rw e (
            with_preferences t h _
              (Distinct-update_where same_key test change t.preferences (λ p q. (refl, refl))
                h.keys)
              (All-update_where_kept (λ p. KnownUser t.users p.user_id) test change t.preferences
                (λ p k. k) h.preference_users))
      | inr e ↦ elim (Bool-cases (has_user t.users user_id)) [
        | inr e' ↦ rw (e, e') h
        | inl e' ↦
            let p : Preference = record {
              user_id = user_id;
              key = key;
              value = value;
              updated_at = now;
            } in
            rw (e, e')
              (with_preferences t h (t.preferences ++ p ∷ [])
                (Distinct-append same_key t.preferences p h.keys e)
                (All-append (λ q. KnownUser t.users q.user_id) t.preferences (p ∷ [])
                  h.preference_users (e', tt)))
      ]
    ]

pub delete-IsSound :
    (user_id key : String) (t : Tables) → IsSound t → IsSound (Preferences.delete user_id key t).1
unfolding Preferences.delete
delete-IsSound user_id key t h =
    with_preferences t h _ (Distinct-select same_key _ t.preferences h.keys)
      (All-select (λ p. KnownUser t.users p.user_id) _ t.preferences h.preference_users)
