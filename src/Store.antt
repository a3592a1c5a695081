-- ===== src/Store.antt =====
-- internal/store/store.go: the persisted records and the errors of the store.
use mera_drive.Base.{ℕ, String, Bool, true, false, not, Option, ltb, ◌==◌, if◌then◌else◌}

-- `Scope`; a text that is neither of the two is kept.
pub data Scope : Type 0 where
  drive_file drive_full : Scope
  unknown : String → Scope

unfoldable pub is_valid_scope : Scope → Bool
is_valid_scope Scope.drive_file = true
is_valid_scope Scope.drive_full = true
is_valid_scope (Scope.unknown s) = false

-- `store.Scope(s)`
abbrev pub scope_of_text : String → Scope
scope_of_text s =
    if s == "drive.file"
    then Scope.drive_file
    else if s == "drive"
    then Scope.drive_full
    else Scope.unknown s

pub data AccountStatus : Type 0 where
  connected reauth_required disconnected : AccountStatus

pub record User : Type 0 where
  pub id : String
  pub email : String
  pub name : String
  pub avatar_url : String
  pub created_at : ℕ
  pub updated_at : ℕ

pub record Account : Type 0 where
  pub id : String
  pub user_id : String
  pub google_user_id : String
  pub email : String
  pub name : String
  pub avatar_url : String
  pub scope : Scope
  pub status : AccountStatus
  pub refresh_token_enc : String
  pub sort_order : ℕ
  pub connected_at : ℕ
  pub last_used_at : Option ℕ
  pub updated_at : ℕ

pub record Session : Type 0 where
  pub id : String
  pub user_id : String
  pub token_hash : String
  pub user_agent : String
  pub ip_address : String
  pub created_at : ℕ
  pub last_seen_at : ℕ
  pub expires_at : ℕ

-- `!now.Before(s.ExpiresAt)`
unfoldable pub expired : Session → ℕ → Bool
expired s now = not (ltb now s.expires_at)

abbrev pub is_disconnected : AccountStatus → Bool
is_disconnected AccountStatus.disconnected = true
is_disconnected _ = false

abbrev pub is_connected : AccountStatus → Bool
is_connected AccountStatus.connected = true
is_connected _ = false

abbrev pub needs_reauth : AccountStatus → Bool
needs_reauth AccountStatus.reauth_required = true
needs_reauth _ = false
