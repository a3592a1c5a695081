-- ===== src/Samples.antt =====
-- Values that the examples of several modules run on.
use mera_drive.Base.{◌*◌, true, false, none, some, [], ◌∷◌}
use mera_drive.Base.Int.{pos}
use mera_drive.Store.{Scope, AccountStatus, User, Account, Session}
use mera_drive.Google.Errors.{second}
use mera_drive.Google.File.{File, Capabilities}
use mera_drive.Sqlite.Tables.{Tables}

abbrev pub asha : User
asha = record {
  id = "u1";
  email = "asha@example.org";
  name = "Asha";
  avatar_url = "";
  created_at = 0;
  updated_at = 0;
}

abbrev pub ravi : User
ravi = record asha { id = "u2"; email = "ravi@example.org"; name = "Ravi" }

abbrev pub work : Account
work = record {
  id = "a1";
  user_id = "u1";
  google_user_id = "g1";
  email = "work@example.org";
  name = "Asha";
  avatar_url = "";
  scope = Scope.drive_full;
  status = AccountStatus.connected;
  refresh_token_enc = "sealed-1";
  sort_order = 0;
  connected_at = 10;
  last_used_at = none;
  updated_at = 10;
}

abbrev pub home : Account
home = record work {
  id = "a2";
  google_user_id = "g2";
  email = "home@example.org";
  refresh_token_enc = "sealed-2";
  sort_order = 1;
}

abbrev pub laptop : Session
laptop = record {
  id = "s1";
  user_id = "u1";
  token_hash = "#secret";
  user_agent = "browser";
  ip_address = "192.0.2.1";
  created_at = 0;
  last_seen_at = 0;
  expires_at = 1000 * second;
}

abbrev pub tables : Tables
tables = record {
  users = asha ∷ ravi ∷ [];
  accounts = work ∷ home ∷ [];
  sessions = laptop ∷ [];
  preferences = [];
}

abbrev pub all_rights : Capabilities
all_rights = record {
  can_edit = true;
  can_rename = true;
  can_delete = true;
  can_trash = true;
  can_share = true;
  can_copy = true;
  can_add_children = false;
}

abbrev pub notes : File
notes = record {
  id = "f1";
  name = "notes.txt";
  mime_type = "text/plain";
  size = some (pos 12);
  modified_at = 5;
  created_at = 1;
  starred = false;
  trashed = false;
  shared = false;
  parents = "root" ∷ [];
  web_view_link = "";
  icon_link = "";
  thumbnail_link = "";
  owner = none;
  capabilities = all_rights;
}

abbrev pub photos : File
photos = record notes {
  id = "f2";
  name = "Photos";
  mime_type = "application/vnd.google-apps.folder";
  size = none;
}
