-- ===== src/Google/File.antt =====
-- internal/google/files.go: a Drive file as the client returns it. Times are nanoseconds, and the
-- zero time is 0.
use mera_drive.Base.{
  ℕ, String, Bool, true, false, Option, none, some, List, [], ◌∷◌, ◌==◌, starts_with,
}
use mera_drive.Base.Int.{ℤ}
use mera_drive.Google.Query.{folder_mime_type}

pub record FileOwner : Type 0 where
  pub display_name : String
  pub email : String
  pub photo_url : String

pub record Capabilities : Type 0 where
  pub can_edit : Bool
  pub can_rename : Bool
  pub can_delete : Bool
  pub can_trash : Bool
  pub can_share : Bool
  pub can_copy : Bool
  pub can_add_children : Bool

pub record File : Type 0 where
  pub id : String
  pub name : String
  pub mime_type : String
  pub size : Option ℤ
  pub modified_at : ℕ
  pub created_at : ℕ
  pub starred : Bool
  pub trashed : Bool
  pub shared : Bool
  pub parents : List String
  pub web_view_link : String
  pub icon_link : String
  pub thumbnail_link : String
  pub owner : Option FileOwner
  pub capabilities : Capabilities

pub record FileList : Type 0 where
  pub files : List File
  pub next_page_token : String

unfoldable pub is_folder : File → Bool
is_folder f = f.mime_type == folder_mime_type

unfoldable pub is_google_native : File → Bool
is_google_native f = starts_with f.mime_type "application/vnd.google-apps."

-- `fileWire`: sizes and times are texts, and the owners are a list.
pub record FileWire : Type 0 where
  pub id : String
  pub name : String
  pub mime_type : String
  pub size : Option String
  pub modified_time : String
  pub created_time : String
  pub starred : Bool
  pub trashed : Bool
  pub shared : Bool
  pub parents : List String
  pub web_view_link : String
  pub icon_link : String
  pub thumbnail_link : String
  pub owners : List FileOwner
  pub capabilities : Capabilities

-- strconv.ParseInt in base 10 at 64 bits, and time.Parse of RFC 3339 in UTC.
pub record Parsers : Type 0 where
  pub parse_int : String → Option ℤ
  pub parse_time : String → Option ℕ

module _ (p : Parsers) where
  unfoldable pub parse_size : Option String → Option ℤ
  parse_size none = none
  parse_size (some raw) = elim (raw == "") [ true ↦ none | false ↦ p.parse_int raw ]

  unfoldable pub parse_drive_time : String → ℕ
  parse_drive_time raw = elim (raw == "") [
    | true ↦ 0
    | false ↦ elim (p.parse_time raw) [ none ↦ 0 | some t ↦ t ]
  ]

  abbrev first_owner : List FileOwner → Option FileOwner
  first_owner [] = none
  first_owner (o ∷ _) = some o

  unfoldable pub to_file : FileWire → File
  unfolding parse_size parse_drive_time
  to_file w = record {
    id = w.id;
    name = w.name;
    mime_type = w.mime_type;
    size = parse_size w.size;
    modified_at = parse_drive_time w.modified_time;
    created_at = parse_drive_time w.created_time;
    starred = w.starred;
    trashed = w.trashed;
    shared = w.shared;
    parents = w.parents;
    web_view_link = w.web_view_link;
    icon_link = w.icon_link;
    thumbnail_link = w.thumbnail_link;
    owner = first_owner w.owners;
    capabilities = w.capabilities;
  }
