-- ===== src/Sqlite/Refinement/SessionSteps.antt =====
-- internal/store/sqlite/sqlite.go: the statements on sessions, on the maps of the store.
use mera_drive.Base.{
  ℕ, String, Bool, not, ◌||◌, ◌≡◌, refl, inl, inr, [], ◌∷◌, ◌++◌, ◌==◌, any, select, Bool-cases,
}
use mera_drive.Store.{Session}
use mera_drive.Sqlite.Times.{is_not_after}
use mera_drive.Sqlite.Tables.{Tables, update_where, has_user}
use mera_drive.Sqlite.Sessions
use mera_drive.Sqlite.Invariant.{IsSound, same_hash}
use mera_drive.Sqlite.Commands.{Command, execute}
use mera_drive.Sqlite.Maps.{view, kept, effect}
use mera_drive.Sqlite.Refinement.{find_first-append, find_first-update_where, find_first-select}
use mera_drive.Sqlite.Refinement.Views.{
  Step, accepts, with_sessions, one_session, accepted-Step, refused-Step,
}

pub create_session-Step : (s : Session) (t : Tables) → Step (Command.create_session s) t
unfolding execute accepts effect Sessions.create
create_session-Step s t =
    elim (Bool-cases
      (any (λ r. r.id == s.id) t.sessions || any (λ r. r.token_hash == s.token_hash) t.sessions)) [
        | inl e ↦
            refused-Step (Command.create_session s) t (rw (execute, e) refl) (rw (accepts, e) refl)
        | inr e ↦ elim (Bool-cases (has_user t.users s.user_id)) [
          | inr f ↦
              refused-Step (Command.create_session s) t (rw (execute, e, f) refl)
                (rw (accepts, e, f) refl)
          | inl f ↦
              accepted-Step (Command.create_session s) t
                (record t { sessions = t.sessions ++ s ∷ [] }) (rw (execute, e, f) refl)
                (rw (accepts, e, f) refl)
                (with_sessions t (t.sessions ++ s ∷ []) _
                  (λ k. find_first-append (λ r. r.token_hash == k) t.sessions s))
        ]
      ]

pub touch_session-Step : (id : String) (at : ℕ) (t : Tables) → Step (Command.touch_session id at) t
unfolding execute accepts effect Sessions.touch
touch_session-Step id at t = elim (Bool-cases (any (λ s. s.id == id) t.sessions)) [
  | inr e ↦
      refused-Step (Command.touch_session id at) t (rw (execute, e) refl) (rw (accepts, e) refl)
  | inl e ↦
      accepted-Step (Command.touch_session id at) t
        (record t {
          sessions =
              update_where (λ s. s.id == id) (λ s. record s { last_seen_at = at }) t.sessions;
        })
        (rw (execute, e) refl) (rw (accepts, e) refl)
        (with_sessions t _ _ (λ k.
          find_first-update_where (λ s. s.token_hash == k) (λ s. s.id == id)
            (λ s. record s { last_seen_at = at }) t.sessions (λ x. refl)))
]

-- Commands that keep some sessions.
sessions_kept :
    (t : Tables) (test : Session → Bool)
    → IsSound t
    → view (record t { sessions = select test t.sessions })
      ≡ record (view t) { session = λ k. kept test ((view t).session k) }
sessions_kept t test h = with_sessions t _ _ (λ k.
    find_first-select (λ s. s.token_hash == k) same_hash test t.sessions (one_session k) h.hashes)

pub delete_session-Step :
    (id : String) (t : Tables) → IsSound t → Step (Command.delete_session id) t
unfolding execute accepts effect Sessions.delete
delete_session-Step id t h = elim (Bool-cases (any (λ s. s.id == id) t.sessions)) [
  | inr e ↦ refused-Step (Command.delete_session id) t (rw (execute, e) refl) (rw (accepts, e) refl)
  | inl e ↦
      accepted-Step (Command.delete_session id) t
        (record t { sessions = select (λ s. not (s.id == id)) t.sessions }) (rw (execute, e) refl)
        (rw (accepts, e) refl) (sessions_kept t (λ s. not (s.id == id)) h)
]

pub delete_user_sessions-Step :
    (user_id : String) (t : Tables) → IsSound t → Step (Command.delete_user_sessions user_id) t
unfolding execute accepts effect Sessions.delete_of_user
delete_user_sessions-Step user_id t h =
    accepted-Step (Command.delete_user_sessions user_id) t
      (record t { sessions = select (λ s. not (s.user_id == user_id)) t.sessions }) refl refl
      (sessions_kept t (λ s. not (s.user_id == user_id)) h)

pub delete_expired-Step :
    (now : ℕ) (t : Tables) → IsSound t → Step (Command.delete_expired_sessions now) t
unfolding execute accepts effect Sessions.delete_expired
delete_expired-Step now t h =
    accepted-Step (Command.delete_expired_sessions now) t
      (record t { sessions = select (λ s. not (is_not_after s.expires_at now)) t.sessions }) refl
      refl (sessions_kept t (λ s. not (is_not_after s.expires_at now)) h)
