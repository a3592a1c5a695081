-- ===== src/Sqlite/Sessions.antt =====
-- internal/store/sqlite/sqlite.go: the table of sessions.
use mera_drive.Base.{
  ℕ, String, not, ◌||◌, [], ◌∷◌, ◌++◌, ◌==◌, any, select, find_first, length, ◌-◌, if◌then◌else◌,
}
use mera_drive.Base.Result.{ok}
use mera_drive.Store.{Session}
use mera_drive.Sqlite.Times.{is_not_after}
use mera_drive.Sqlite.Tables.{Statement, broken, found, update_where, affected, unique, has_user}

unfoldable pub create : Session → Statement (Unit {0})
create s t =
    unique
      (any (λ r. r.id == s.id) t.sessions || any (λ r. r.token_hash == s.token_hash) t.sessions)
      (λ t'.
        if has_user t'.users s.user_id
        then (ok tt, record t' { sessions = t'.sessions ++ s ∷ [] })
        else broken "FOREIGN KEY constraint failed" t')
      t

unfoldable pub get_by_token_hash : String → Statement Session
get_by_token_hash hash t = found (find_first (λ s. s.token_hash == hash) t.sessions) t

unfoldable pub touch : String → ℕ → Statement (Unit {0})
unfolding update_where
touch id at t =
    affected (any (λ s. s.id == id) t.sessions)
      (record t {
        sessions = update_where (λ s. s.id == id) (λ s. record s { last_seen_at = at }) t.sessions;
      })
      t

unfoldable pub delete : String → Statement (Unit {0})
delete id t =
    affected (any (λ s. s.id == id) t.sessions)
      (record t { sessions = select (λ s. not (s.id == id)) t.sessions }) t

unfoldable pub delete_of_user : String → Statement (Unit {0})
delete_of_user user_id t =
    (ok tt, record t { sessions = select (λ s. not (s.user_id == user_id)) t.sessions })

-- `expires_at <= ?`, a comparison of texts; the result is the number of rows that went.
unfoldable pub delete_expired : ℕ → Statement ℕ
delete_expired now t =
    let kept = select (λ s. not (is_not_after s.expires_at now)) t.sessions in
    (ok (length t.sessions - length kept), record t { sessions = kept })
