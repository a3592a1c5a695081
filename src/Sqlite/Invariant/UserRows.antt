-- ===== src/Sqlite/Invariant/UserRows.antt =====
-- internal/store/sqlite/sqlite.go: the statements on users and the invariant.
use mera_drive.Base.{
  ℕ, String, true, ◌||◌, ◌≡◌, inl, inr, refl, arith, ◌==◌, any, All-select, Bool-cases,
}
use mera_drive.Store.{User, Account, Session, is_valid_scope}
use mera_drive.Sqlite.Tables.{Preference, Tables, update_where, has_user}
use mera_drive.Sqlite.Rows.{Distinct-append, Distinct-select, Distinct-update_where}
use mera_drive.Sqlite.Invariant.{
  IsSound, KnownUser, same_user_id, same_email, same_account_id, same_link, same_session_id,
  same_hash, same_key, has_user-append, has_user-update_where, known_after_delete, All-map,
}
use mera_drive.Sqlite.Users

pub create-IsSound : (u : User) (t : Tables) → IsSound t → IsSound (Users.create u t).1
unfolding Users.create
create-IsSound u t h =
    elim (Bool-cases (any (λ v. v.id == u.id) t.users || any (λ v. v.email == u.email) t.users)) [
      | inl e ↦ rw e h
      | inr e ↦ rw e (record {
        user_ids = Distinct-append same_user_id t.users u h.user_ids (ground arith);
        emails = Distinct-append same_email t.users u h.emails (ground arith);
        account_ids = h.account_ids;
        links = h.links;
        session_ids = h.session_ids;
        hashes = h.hashes;
        keys = h.keys;
        scopes = h.scopes;
        account_users =
            All-map _ _ t.accounts (λ a. has_user-append t.users u a.user_id) h.account_users;
        session_users =
            All-map _ _ t.sessions (λ s. has_user-append t.users u s.user_id) h.session_users;
        preference_users =
            All-map _ _ t.preferences (λ p. has_user-append t.users u p.user_id) h.preference_users;
      })
    ]

pub update_profile-IsSound :
    (id name avatar_url : String) (now : ℕ) (t : Tables)
    → IsSound t
    → IsSound (Users.update_profile id name avatar_url now t).1
unfolding Users.update_profile
update_profile-IsSound id name avatar_url now t h = elim (Bool-cases (has_user t.users id)) [
  | inr e ↦ rw e h
  | inl e ↦
      let test = λ (u : User). u.id == id in
      let change =
        λ (u : User). record u { name = name; avatar_url = avatar_url; updated_at = now } in
      let kept : (k : String)
          → KnownUser t.users k
          → KnownUser (update_where test change t.users) k =
        λ k. has_user-update_where test change t.users k (λ u. refl) in
      rw e (record {
        user_ids =
            Distinct-update_where same_user_id test change t.users (λ u v. (refl, refl)) h.user_ids;
        emails =
            Distinct-update_where same_email test change t.users (λ u v. (refl, refl)) h.emails;
        account_ids = h.account_ids;
        links = h.links;
        session_ids = h.session_ids;
        hashes = h.hashes;
        keys = h.keys;
        scopes = h.scopes;
        account_users = All-map _ _ t.accounts (λ a. kept a.user_id) h.account_users;
        session_users = All-map _ _ t.sessions (λ s. kept s.user_id) h.session_users;
        preference_users = All-map _ _ t.preferences (λ p. kept p.user_id) h.preference_users;
      })
]

pub delete-IsSound : (id : String) (t : Tables) → IsSound t → IsSound (Users.delete id t).1
unfolding Users.delete
delete-IsSound id t h = elim (Bool-cases (has_user t.users id)) [
  | inr e ↦ rw e h
  | inl e ↦ rw e (record {
    user_ids = Distinct-select same_user_id _ t.users h.user_ids;
    emails = Distinct-select same_email _ t.users h.emails;
    account_ids = Distinct-select same_account_id _ t.accounts h.account_ids;
    links = Distinct-select same_link _ t.accounts h.links;
    session_ids = Distinct-select same_session_id _ t.sessions h.session_ids;
    hashes = Distinct-select same_hash _ t.sessions h.hashes;
    keys = Distinct-select same_key _ t.preferences h.keys;
    scopes = All-select (λ a. is_valid_scope a.scope ≡ true) _ t.accounts h.scopes;
    account_users =
        known_after_delete (λ (a : Account). a.user_id) t.users id t.accounts h.account_users;
    session_users =
        known_after_delete (λ (s : Session). s.user_id) t.users id t.sessions h.session_users;
    preference_users =
        known_after_delete (λ (p : Preference). p.user_id) t.users id t.preferences
          h.preference_users;
  })
]
