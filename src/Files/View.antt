-- ===== src/Files/View.antt =====
-- internal/files/service.go, FileView and newFileView; fileKind of internal/files/sort.go.
use mera_drive.Base.{
  ℕ, String, Bool, true, false, Option, List, [], ◌∷◌, ◌==◌, starts_with, any, if◌then◌else◌,
}
use mera_drive.Base.Int.{ℤ}
use mera_drive.Google.Query.{folder_mime_type}
use mera_drive.Google.File.{File, FileOwner, Capabilities}
use mera_drive.Store.{Account}

pub data Kind : Type 0 where
  folder gdoc gsheet gslide pdf image video audio text archive other : Kind

abbrev pub archive_mime_types : List String
archive_mime_types =
    "application/zip" ∷ "application/x-tar" ∷ "application/gzip" ∷ "application/x-7z-compressed"
    ∷ "application/vnd.rar" ∷ []

unfoldable pub file_kind : String → Kind
file_kind mime_type =
    if mime_type == folder_mime_type
    then Kind.folder
    else if mime_type == "application/vnd.google-apps.document"
    then Kind.gdoc
    else if mime_type == "application/vnd.google-apps.spreadsheet"
    then Kind.gsheet
    else if mime_type == "application/vnd.google-apps.presentation"
    then Kind.gslide
    else if mime_type == "application/pdf"
    then Kind.pdf
    else if starts_with mime_type "image/"
    then Kind.image
    else if starts_with mime_type "video/"
    then Kind.video
    else if starts_with mime_type "audio/"
    then Kind.audio
    else if starts_with mime_type "text/"
    then Kind.text
    else if any (λ m. mime_type == m) archive_mime_types
    then Kind.archive
    else Kind.other

abbrev pub is_folder_kind : Kind → Bool
is_folder_kind Kind.folder = true
is_folder_kind _ = false

pub record FileView : Type 0 where
  pub id : String
  pub name : String
  pub mime_type : String
  pub kind : Kind
  pub size : Option ℤ
  pub modified_at : ℕ
  pub created_at : ℕ
  pub starred : Bool
  pub trashed : Bool
  pub shared : Bool
  pub parents : List String
  pub web_view_link : String
  pub icon_link : String
  pub thumbnail_link : String
  pub owner : Option FileOwner
  pub capabilities : Capabilities
  pub account_id : String
  pub account_email : String

unfoldable pub new_file_view : File → Account → FileView
unfolding file_kind
new_file_view file account = record {
  id = file.id;
  name = file.name;
  mime_type = file.mime_type;
  kind = file_kind file.mime_type;
  size = file.size;
  modified_at = file.modified_at;
  created_at = file.created_at;
  starred = file.starred;
  trashed = file.trashed;
  shared = file.shared;
  parents = file.parents;
  web_view_link = file.web_view_link;
  icon_link = file.icon_link;
  thumbnail_link = file.thumbnail_link;
  owner = file.owner;
  capabilities = file.capabilities;
  account_id = account.id;
  account_email = account.email;
}
