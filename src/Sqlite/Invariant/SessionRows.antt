-- ===== src/Sqlite/Invariant/SessionRows.antt =====
-- internal/store/sqlite/sqlite.go: the statements on sessions and the invariant.
use mera_drive.Base.{
  ℕ, String, Bool, ◌||◌, inl, inr, refl, arith, List, [], ◌∷◌, ◌++◌, ◌==◌, any, select, All,
  All-append, All-select, Bool-cases,
}
use mera_drive.Store.{Session}
use mera_drive.Sqlite.Tables.{Tables, has_user}
use mera_drive.Sqlite.Rows.{
  Distinct, Distinct-append, Distinct-select, Distinct-update_where, All-update_where_kept,
}
use mera_drive.Sqlite.Invariant.{IsSound, KnownUser, same_session_id, same_hash}
use mera_drive.Sqlite.Sessions

-- A state that differs in its sessions alone.
module _ (t : Tables) (h : IsSound t) where
  with_sessions :
      (rows : List Session)
      → Distinct same_session_id rows
      → Distinct same_hash rows
      → All (λ s. KnownUser t.users s.user_id) rows
      → IsSound (record t { sessions = rows })
  with_sessions rows ids hashes users = record {
    user_ids = h.user_ids;
    emails = h.emails;
    account_ids = h.account_ids;
    links = h.links;
    session_ids = ids;
    hashes = hashes;
    keys = h.keys;
    scopes = h.scopes;
    account_users = h.account_users;
    session_users = users;
    preference_users = h.preference_users;
  }

  with_fewer : (test : Session → Bool) → IsSound (record t { sessions = select test t.sessions })
  with_fewer test =
      with_sessions _ (Distinct-select same_session_id test t.sessions h.session_ids)
        (Distinct-select same_hash test t.sessions h.hashes)
        (All-select (λ s. KnownUser t.users s.user_id) test t.sessions h.session_users)

pub create-IsSound : (s : Session) (t : Tables) → IsSound t → IsSound (Sessions.create s t).1
unfolding Sessions.create
create-IsSound s t h =
    elim (Bool-cases
      (any (λ r. r.id == s.id) t.sessions || any (λ r. r.token_hash == s.token_hash) t.sessions)) [
        | inl e ↦ rw e h
        | inr e ↦ elim (Bool-cases (has_user t.users s.user_id)) [
          | inr e' ↦ rw (e, e') h
          | inl e' ↦
              rw (e, e')
                (with_sessions t h (t.sessions ++ s ∷ [])
                  (Distinct-append same_session_id t.sessions s h.session_ids (ground arith))
                  (Distinct-append same_hash t.sessions s h.hashes (ground arith))
                  (All-append (λ r. KnownUser t.users r.user_id) t.sessions (s ∷ []) h.session_users
                    (e', tt)))
        ]
      ]

pub touch-IsSound :
    (id : String) (at : ℕ) (t : Tables) → IsSound t → IsSound (Sessions.touch id at t).1
unfolding Sessions.touch
touch-IsSound id at t h = elim (Bool-cases (any (λ s. s.id == id) t.sessions)) [
  | inr e ↦ rw e h
  | inl e ↦
      let test = λ (s : Session). s.id == id in
      let change = λ (s : Session). record s { last_seen_at = at } in
      rw e (
        with_sessions t h _
          (Distinct-update_where same_session_id test change t.sessions (λ r s. (refl, refl))
            h.session_ids)
          (Distinct-update_where same_hash test change t.sessions (λ r s. (refl, refl)) h.hashes)
          (All-update_where_kept (λ s. KnownUser t.users s.user_id) test change t.sessions
            (λ s p. p) h.session_users))
]

pub delete-IsSound : (id : String) (t : Tables) → IsSound t → IsSound (Sessions.delete id t).1
unfolding Sessions.delete
delete-IsSound id t h = elim (Bool-cases (any (λ s. s.id == id) t.sessions)) [
  | inr e ↦ rw e h
  | inl e ↦ rw e (with_fewer t h _)
]

pub delete_of_user-IsSound :
    (user_id : String) (t : Tables) → IsSound t → IsSound (Sessions.delete_of_user user_id t).1
unfolding Sessions.delete_of_user
delete_of_user-IsSound user_id t h = with_fewer t h _

pub delete_expired-IsSound :
    (now : ℕ) (t : Tables) → IsSound t → IsSound (Sessions.delete_expired now t).1
unfolding Sessions.delete_expired
delete_expired-IsSound now t h = with_fewer t h _
