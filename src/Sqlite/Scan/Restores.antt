-- ===== src/Sqlite/Scan/Restores.antt =====
-- internal/store/sqlite/sqlite.go: the rows that are read are the rows that were written.
use mera_drive.Base.{
  ℕ, ◌*◌, ◌<◌, String, true, Option, none, some, List, [], ◌∷◌, ◌≡◌, refl, arith, All, All-of_Elem,
  Elem-of_All,
}
use mera_drive.Base.Result.{ok}
use mera_drive.Google.Errors.{second}
use mera_drive.Store.{scope_of_text, Scope, AccountStatus, User, Account, Session, is_valid_scope}
use mera_drive.Sqlite.Tables.{Tables}
use mera_drive.Sqlite.Invariant.{IsSound}
use mera_drive.Sqlite.Scan.{
  Cell, TimeTexts, scope_text, status_text, status_of, next_text, next_integer, next_optional,
  time_cell, optional_time, parse_optional, user_cells, scan_user, account_cells, scan_account,
  session_cells, scan_session,
}

-- The first moment of the year 10000, which has no text of RFC 3339.
abbrev pub year_10000 : ℕ
year_10000 = 253_402_300_800 * second

-- Every time up to the year 9999 is read back from its text.
pub record Parses (times : TimeTexts) : Type 0 where
  pub parses : (t : ℕ) → t < year_10000 → times.parse (times.format t) ≡ ok t

abbrev UserInRange : User → Type 0
UserInRange u = (u.created_at < year_10000) × (u.updated_at < year_10000)

abbrev TimeInRange : Option ℕ → Type 0
TimeInRange none = Unit
TimeInRange (some t) = t < year_10000

abbrev AccountInRange : Account → Type 0
AccountInRange a =
    (a.connected_at < year_10000) × (a.updated_at < year_10000) × TimeInRange a.last_used_at

abbrev SessionInRange : Session → Type 0
SessionInRange s =
    (s.created_at < year_10000) × (s.last_seen_at < year_10000) × (s.expires_at < year_10000)

-- No time of the tables is behind the year 9999.
pub record InRange (t : Tables) : Type 0 where
  pub users : All UserInRange t.users
  pub accounts : All AccountInRange t.accounts
  pub sessions : All SessionInRange t.sessions

scope_of_text-scope_text : (s : Scope) → is_valid_scope s ≡ true → scope_of_text (scope_text s) ≡ s
unfolding is_valid_scope
scope_of_text-scope_text Scope.drive_file h = refl
scope_of_text-scope_text Scope.drive_full h = refl
scope_of_text-scope_text (Scope.unknown s) h = absurd (ground arith)

status_of-status_text : (s : AccountStatus) → status_of (status_text s) ≡ ok s
status_of-status_text AccountStatus.connected = refl
status_of-status_text AccountStatus.reauth_required = refl
status_of-status_text AccountStatus.disconnected = refl

module _ (times : TimeTexts) (p : Parses times) where
  scan_user-user_cells :
      (u : User) → UserInRange u → (scan_user times (user_cells times u)).0 ≡ ok u
  unfolding scan_user user_cells next_text time_cell
  scan_user-user_cells u (c, d) = rw (p.parses u.created_at c) (rw (p.parses u.updated_at d) refl)

  scan_session-session_cells :
      (s : Session) → SessionInRange s → (scan_session times (session_cells times s)).0 ≡ ok s
  unfolding scan_session session_cells next_text time_cell
  scan_session-session_cells s (c, l, e) =
      rw (p.parses s.created_at c)
        (rw (p.parses s.last_seen_at l) (rw (p.parses s.expires_at e) refl))

  parse_optional-optional_time :
      (o : Option ℕ) (rest : List Cell)
      → TimeInRange o
      → (v : Option String) × (next_optional (optional_time times o ∷ rest) ≡ (ok v, rest))
        × (parse_optional times v ≡ ok o)
  unfolding next_optional optional_time time_cell parse_optional
  parse_optional-optional_time none rest h = (none, refl, refl)
  parse_optional-optional_time (some t) rest h =
      (some (times.format t), refl, rw (parse_optional, p.parses t h) refl)

  scan_account-account_cells :
      (a : Account)
      → is_valid_scope a.scope ≡ true
      → AccountInRange a
      → (scan_account times (account_cells times a)).0 ≡ ok a
  unfolding scan_account account_cells next_text next_integer time_cell
  scan_account-account_cells a h (c, d, l) =
      let (v, taken, read) =
        parse_optional-optional_time a.last_used_at (time_cell times a.updated_at ∷ []) l in
      rw taken (
        rw (status_of-status_text a.status) (
          rw (p.parses a.connected_at c) (
            rw (p.parses a.updated_at d) (rw read (rw (scope_of_text-scope_text a.scope h) refl)))))

  -- Of a database that keeps the schema every user, every account and every session is read back
  -- from the columns that were written for it, field by field, the scope, the status and the time
  -- of last use included, when each time up to the year 9999 is read back from its text and no
  -- time of the database is behind it.
  pub scan-Restores :
      (t : Tables)
      → IsSound t
      → InRange t
      → All (λ u. (scan_user times (user_cells times u)).0 ≡ ok u) t.users
        × All (λ a. (scan_account times (account_cells times a)).0 ≡ ok a) t.accounts
        × All (λ s. (scan_session times (session_cells times s)).0 ≡ ok s) t.sessions
  scan-Restores t sound range = (
    All-of_Elem _ t.users (λ u m. scan_user-user_cells u (Elem-of_All _ t.users u range.users m)),
    All-of_Elem _ t.accounts (λ a m.
        scan_account-account_cells a (Elem-of_All _ t.accounts a sound.scopes m)
          (Elem-of_All _ t.accounts a range.accounts m)),
    All-of_Elem _ t.sessions
        (λ s m. scan_session-session_cells s (Elem-of_All _ t.sessions s range.sessions m)),
  )
