-- ===== src/Google/Requests.antt =====
-- internal/google/files.go and drive.go: the request that each operation of Drive makes, and what
-- it makes of the answer. A `Wire` is the client with one access token, once for each type of
-- answer; net/url is in its two operations on texts, and strconv in its parsers. The address of
-- the API is its `base`.
pub mod Laws
mod Examples
use mera_drive.Base.{
  ℕ, String, Bool, true, false, not, ◌&&◌, Option, none, some, List, [], ◌∷◌, ◌++◌, ◌==◌, ◌<>◌, map,
  if◌then◌else◌,
}
use mera_drive.Base.Result.{Result, ok, err, Act}
use mera_drive.Base.Act.{pure, raise, lift, ◌>>=◌}
use mera_drive.Apperr.{Code, Fault, fail}
use mera_drive.Google.Drive.{Net, CallSpec, call}
use mera_drive.Google.File.{File, FileList, FileWire, Parsers, to_file}
use mera_drive.Google.Query.{folder_mime_type}

-- A value of a JSON body.
pub data Json : Type 0 where
  text : String → Json
  flag : Bool → Json
  texts : List String → Json

-- `map[string]any`
abbrev pub Body : Type 0
Body = List (String × Json)

pub record Wire (W : Type 0) : Type 0 where
  pub file : Net W Body FileWire
  pub nothing : Net W Body (Unit {0})
  pub parsers : Parsers
  -- strings.TrimRight(d.endpoints.BaseURL, "/")
  pub base : String
  -- url.PathEscape and url.Values.Encode
  pub path_escape : String → String
  pub encode : List (String × String) → String

pub record CreateFolderRequest : Type 0 where
  pub name : String
  pub parent_id : String

pub record CopyFileRequest : Type 0 where
  pub name : String
  pub parent_id : String

pub record UpdateFileRequest : Type 0 where
  pub name : Option String
  pub starred : Option Bool
  pub trashed : Option Bool
  pub add_parent : String
  pub remove_parent : String

abbrev pub file_fields : String
file_fields =
    "id,name,mimeType,size,modifiedTime,createdTime,starred,trashed,shared,parents,webViewLink,iconLink,thumbnailLink,owners(displayName,emailAddress,photoLink),capabilities(canEdit,canRename,canDelete,canTrash,canShare,canCopy,canAddChildren)"

abbrev pub drives : List (String × String)
drives = ("supportsAllDrives", "true") ∷ []

-- A field of a body, or a parameter of a query, where there is one.
abbrev pub given : {A B : Type 0} → String → (A → B) → Option A → List (String × B)
given key f none = []
given key f (some a) = (key, f a) ∷ []

abbrev pub filled : {B : Type 0} → String → (String → B) → String → List (String × B)
filled key f s = if s == "" then [] else (key, f s) ∷ []

abbrev pub parent_list : String → Json
parent_list id = texts (id ∷ [])

unfoldable pub create_folder_body : CreateFolderRequest → Body
create_folder_body req =
    ("name", text req.name)
    ∷ ("mimeType", text folder_mime_type)
    ∷ filled "parents" parent_list req.parent_id

unfoldable pub copy_file_body : CopyFileRequest → Body
copy_file_body req = filled "name" text req.name ++ filled "parents" parent_list req.parent_id

unfoldable pub update_file_body : UpdateFileRequest → Body
update_file_body req =
    given "name" text req.name
    ++ (given "starred" flag req.starred ++ given "trashed" flag req.trashed)

abbrev is_none : {A : Type 0} → Option A → Bool
is_none none = true
is_none (some _) = false

-- `UpdateFileRequest.empty`
unfoldable pub is_empty : UpdateFileRequest → Bool
is_empty req =
    is_none req.name
    && is_none req.starred
    && is_none req.trashed
    && req.add_parent == ""
    && req.remove_parent == ""

-- What `var wire fileWire` holds before an answer is decoded.
abbrev pub blank : FileWire
blank = record {
  id = "";
  name = "";
  mime_type = "";
  size = none;
  modified_time = "";
  created_time = "";
  starred = false;
  trashed = false;
  shared = false;
  parents = [];
  web_view_link = "";
  icon_link = "";
  thumbnail_link = "";
  owners = [];
  capabilities = record {
    can_edit = false;
    can_rename = false;
    can_delete = false;
    can_trash = false;
    can_share = false;
    can_copy = false;
    can_add_children = false;
  };
}

module _ {W : Type 0} (wire : Wire W) where
  abbrev pub target : String → List (String × String) → String
  target path query = wire.base <> (path <> ("?" <> wire.encode query))

  abbrev pub file_path : String → String
  file_path id = "/files/" <> wire.path_escape id

  -- A call whose answer is a file.
  unfoldable pub call_file : CallSpec Body → Act W Fault File
  unfolding to_file
  call_file spec = do answer ← call wire.file blank true spec; pure (to_file wire.parsers answer)

  unfoldable pub get_file : String → Act W Fault File
  unfolding call_file
  get_file id = call_file (record {
    method = "GET";
    target = target (file_path id) (("fields", file_fields) ∷ drives);
    body = none;
    idempotent = true;
  })

  unfoldable pub create_folder : CreateFolderRequest → Act W Fault File
  unfolding call_file create_folder_body
  create_folder req = call_file (record {
    method = "POST";
    target = target "/files" (("fields", file_fields) ∷ drives);
    body = some (create_folder_body req);
    idempotent = false;
  })

  unfoldable pub copy_file : String → CopyFileRequest → Act W Fault File
  unfolding call_file copy_file_body
  copy_file id req = call_file (record {
    method = "POST";
    target = target (file_path id <> "/copy") (("fields", file_fields) ∷ drives);
    body = some (copy_file_body req);
    idempotent = false;
  })

  unfoldable pub update_file : String → UpdateFileRequest → Act W Fault File
  unfolding call_file update_file_body is_empty
  update_file id req w =
      let query =
        ("fields", file_fields) ∷ drives
        ++ (filled "addParents" (λ s. s) req.add_parent
            ++ filled "removeParents" (λ s. s) req.remove_parent) in
      if is_empty req
      then (fail Code.validation "Nothing to update.", w)
      else call_file
          (record {
            method = "PATCH";
            target = target (file_path id) query;
            body = some (update_file_body req);
            idempotent = true;
          })
          w

  unfoldable pub delete_file : String → Act W Fault (Unit {0})
  delete_file id = call wire.nothing tt false (record {
    method = "DELETE";
    target = target (file_path id) drives;
    body = none;
    idempotent = true;
  })
