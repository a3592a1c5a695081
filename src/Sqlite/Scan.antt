-- ===== src/Sqlite/Scan.antt =====
-- internal/store/sqlite/sqlite.go: the columns that an INSERT binds, and what scanUser,
-- scanAccount and GetSessionByTokenHash read from them, by position. time.Time.Format and
-- time.Parse are the operations of `TimeTexts`.
pub mod Restores
mod Examples
use mera_drive.Base.{
  ℕ, String, Bool, true, false, Option, none, some, List, [], ◌∷◌, ◌==◌, if◌then◌else◌,
}
use mera_drive.Base.Result.{Result, ok, err, Act}
use mera_drive.Base.Act.{pure, lift, ◌>>=◌}
use mera_drive.Apperr.{Failure, other}
use mera_drive.Store.{scope_of_text, Scope, AccountStatus, User, Account, Session}

pub data Cell : Type 0 where
  null : Cell
  text : String → Cell
  integer : ℕ → Cell

pub record TimeTexts : Type 0 where
  pub format : ℕ → String
  pub parse : String → Result Failure ℕ

-- The conversions between the named types and their texts.
abbrev pub scope_text : Scope → String
scope_text Scope.drive_file = "drive.file"
scope_text Scope.drive_full = "drive"
scope_text (Scope.unknown s) = s

abbrev pub status_text : AccountStatus → String
status_text AccountStatus.connected = "connected"
status_text AccountStatus.reauth_required = "reauth_required"
status_text AccountStatus.disconnected = "disconnected"

-- The schema admits no text but the three.
abbrev pub status_of : String → Result Failure AccountStatus
status_of s =
    if s == "connected"
    then ok AccountStatus.connected
    else if s == "reauth_required"
    then ok AccountStatus.reauth_required
    else if s == "disconnected"
    then ok AccountStatus.disconnected
    else err (other "CHECK constraint failed")

-- `Scan` takes the cells one after the other, each into a destination of a type.
abbrev pub Scanner : Type 0 → Type 0
Scanner A = Act (List Cell) Failure A

abbrev pub unsupported : {A : Type 0} → Scanner A
unsupported cells = (err (other "unsupported Scan"), cells)

unfoldable pub next_text : Scanner String
next_text (text s ∷ cells) = (ok s, cells)
next_text cells = unsupported cells

unfoldable pub next_integer : Scanner ℕ
next_integer (integer n ∷ cells) = (ok n, cells)
next_integer cells = unsupported cells

-- sql.NullString
unfoldable pub next_optional : Scanner (Option String)
next_optional (null ∷ cells) = (ok none, cells)
next_optional (text s ∷ cells) = (ok (some s), cells)
next_optional cells = unsupported cells

module _ (times : TimeTexts) where
  unfoldable pub time_cell : ℕ → Cell
  time_cell t = text (times.format t)

  -- `formatTimePtr`
  unfoldable pub optional_time : Option ℕ → Cell
  unfolding time_cell
  optional_time none = null
  optional_time (some t) = time_cell t

  unfoldable pub parse_optional : Option String → Result Failure (Option ℕ)
  parse_optional none = ok none
  parse_optional (some s) = elim (times.parse s) [ ok t ↦ ok (some t) | err f ↦ err f ]

  unfoldable pub user_cells : User → List Cell
  unfolding time_cell
  user_cells u =
      text u.id
      ∷ text u.email
      ∷ text u.name
      ∷ text u.avatar_url
      ∷ time_cell u.created_at
      ∷ time_cell u.updated_at
      ∷ []

  unfoldable pub scan_user : Scanner User
  unfolding next_text
  scan_user = do
    id ← next_text
    email ← next_text
    name ← next_text
    avatar_url ← next_text
    created ← next_text
    updated ← next_text
    created_at ← lift (times.parse created)
    updated_at ← lift (times.parse updated)
    pure (record {
      id = id;
      email = email;
      name = name;
      avatar_url = avatar_url;
      created_at = created_at;
      updated_at = updated_at;
    })

  unfoldable pub account_cells : Account → List Cell
  unfolding time_cell optional_time
  account_cells a =
      text a.id
      ∷ text a.user_id
      ∷ text a.google_user_id
      ∷ text a.email
      ∷ text a.name
      ∷ text a.avatar_url
      ∷ text (scope_text a.scope)
      ∷ text (status_text a.status)
      ∷ text a.refresh_token_enc
      ∷ integer a.sort_order
      ∷ time_cell a.connected_at
      ∷ optional_time a.last_used_at
      ∷ time_cell a.updated_at
      ∷ []

  unfoldable pub scan_account : Scanner Account
  unfolding next_text next_integer next_optional parse_optional
  scan_account = do
    id ← next_text
    user_id ← next_text
    google_user_id ← next_text
    email ← next_text
    name ← next_text
    avatar_url ← next_text
    scope ← next_text
    status ← next_text
    refresh_token_enc ← next_text
    sort_order ← next_integer
    connected ← next_text
    last_used ← next_optional
    updated ← next_text
    known ← lift (status_of status)
    connected_at ← lift (times.parse connected)
    updated_at ← lift (times.parse updated)
    last_used_at ← lift (parse_optional last_used)
    pure (record {
      id = id;
      user_id = user_id;
      google_user_id = google_user_id;
      email = email;
      name = name;
      avatar_url = avatar_url;
      scope = scope_of_text scope;
      status = known;
      refresh_token_enc = refresh_token_enc;
      sort_order = sort_order;
      connected_at = connected_at;
      last_used_at = last_used_at;
      updated_at = updated_at;
    })

  unfoldable pub session_cells : Session → List Cell
  unfolding time_cell
  session_cells s =
      text s.id
      ∷ text s.user_id
      ∷ text s.token_hash
      ∷ text s.user_agent
      ∷ text s.ip_address
      ∷ time_cell s.created_at
      ∷ time_cell s.last_seen_at
      ∷ time_cell s.expires_at
      ∷ []

  unfoldable pub scan_session : Scanner Session
  unfolding next_text
  scan_session = do
    id ← next_text
    user_id ← next_text
    token_hash ← next_text
    user_agent ← next_text
    ip_address ← next_text
    created ← next_text
    seen ← next_text
    expires ← next_text
    created_at ← lift (times.parse created)
    last_seen_at ← lift (times.parse seen)
    expires_at ← lift (times.parse expires)
    pure (record {
      id = id;
      user_id = user_id;
      token_hash = token_hash;
      user_agent = user_agent;
      ip_address = ip_address;
      created_at = created_at;
      last_seen_at = last_seen_at;
      expires_at = expires_at;
    })
