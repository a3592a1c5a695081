-- ===== src/Server/FileRoutes.antt =====
-- internal/server/routes_files.go: from a request's parameters to the files service. strconv is a
-- record of two functions; the JSON body is given as what BodyParser leaves, or its error.
pub mod Parameters
use mera_drive.Base.{
  ℕ, String, Bool, true, false, not, ◌||◌, Option, none, some, List, [], ◌∷◌, ◌==◌, trim_space,
  if◌then◌else◌,
}
use mera_drive.Base.Int.{ℤ, pos, ltb_ℤ}
use mera_drive.Base.Result.{Result, ok, err, Act}
use mera_drive.Base.Act.{lift, ◌>>=◌}
use mera_drive.Apperr.{Code, Arg, Failure, Fault, app, error, fail, fail_with}
use mera_drive.Google.Query.{ListScope}
use mera_drive.Store.{User}
use mera_drive.Files.Cursor.{Codec}
use mera_drive.Files.Sort.{parse_sort}
use mera_drive.Files.View.{FileView}
use mera_drive.Files.Service.{Accounts, DriveClient, Listing, max_page_size}
use mera_drive.Files.Service.FanOut.{Task, list}
use mera_drive.Files.Service.Change.{create_folder, update, delete}

-- strconv.Atoi and strconv.ParseBool
pub record Strconv : Type 0 where
  pub atoi : String → Option ℤ
  pub parse_bool : String → Option Bool

-- c.Query of the listing.
pub record ListQuery : Type 0 where
  pub scope : String
  pub sort : String
  pub direction : String
  pub page_size : String
  pub account_id : String
  pub parent : String
  pub page : String

-- `createFolderRequest` and `updateFileRequest`
pub record FolderBody : Type 0 where
  pub account_id : String
  pub name : String
  pub parent_id : String

pub record UpdateBody : Type 0 where
  pub name : Option String
  pub starred : Option Bool
  pub trashed : Option Bool
  pub parent_id : Option String

abbrev refuse {ℓ} : {A : Type ℓ} → String → List Arg → Result Fault A
refuse format args = err (app (error Code.bad_request (record { format = format; args = args })))

unfoldable pub parse_scope : String → Result Fault ListScope
parse_scope raw =
    if raw == ""
    then ok ListScope.children
    else if raw == "children"
    then ok ListScope.children
    else if raw == "starred"
    then ok ListScope.starred
    else if raw == "recent"
    then ok ListScope.recent
    else if raw == "trash"
    then ok ListScope.trash
    else refuse "Unknown scope %q." (Arg.text raw ∷ [])

unfoldable pub file_target : String → String → Result Fault (String × String)
file_target account id =
    let account_id = trim_space account in
    let file_id = trim_space id in
    if account_id == "" || file_id == ""
    then fail Code.bad_request "An account id and a file id are required."
    else ok (account_id, file_id)

-- The body, or why it cannot be read.
abbrev pub read_body : {A : Type 0} → String → Result Failure A → Result Fault A
read_body what (ok body) = ok body
read_body what (err f) = fail_with Code.bad_request what f

-- The folder that an update moves its file into; none is "".
unfoldable pub move_target : Option String → Result Fault String
move_target none = ok ""
move_target (some raw) =
    if trim_space raw == ""
    then fail Code.validation "parent_id cannot be empty. Omit it to leave the file where it is."
    else ok (trim_space raw)

module _ (strconv : Strconv) where
  unfoldable pub parse_page_size : String → Result Fault ℤ
  parse_page_size raw = if raw == "" then ok (pos 0) else elim (strconv.atoi raw) [
    | none ↦ refuse "page_size must be a positive number, got %q." (Arg.text raw ∷ [])
    | some size ↦
        if ltb_ℤ size (pos 1)
        then refuse "page_size must be a positive number, got %q." (Arg.text raw ∷ [])
        else if ltb_ℤ (pos max_page_size) size
        then refuse "page_size may not exceed %d." (Arg.number max_page_size ∷ [])
        else ok size
  ]

  unfoldable pub parse_bool : String → Result Fault Bool
  parse_bool raw = if raw == "" then ok false else elim (strconv.parse_bool raw) [
    | none ↦ refuse "Expected true or false, got %q." (Arg.text raw ∷ [])
    | some b ↦ ok b
  ]

  module _ {W : Type 0} (accounts : Accounts W) (drive : DriveClient W) where
    -- `handleListFiles`
    unfoldable pub list_files :
        (String → String) → Codec → List Task → User → ListQuery → Act W Fault Listing
    unfolding parse_scope parse_page_size
    list_files lower codec schedule user query = do
      scope ← lift (parse_scope query.scope)
      sort ← lift (parse_sort query.sort query.direction)
      page_size ← lift (parse_page_size query.page_size)
      list accounts drive lower codec schedule (record {
        user_id = user.id;
        account_id = trim_space query.account_id;
        scope = some scope;
        parent_id = trim_space query.parent;
        sort = some sort;
        page_size = page_size;
        page = query.page;
      })

    -- `handleDeleteFile`
    unfoldable pub delete_file : User → String → String → String → Act W Fault (Unit {0})
    unfolding file_target parse_bool
    delete_file user account id raw_permanent = do
      target ← lift (file_target account id)
      permanent ← lift (parse_bool raw_permanent)
      delete accounts drive user.id target.0 target.1 permanent

module _ {W : Type 0} (accounts : Accounts W) (drive : DriveClient W) where
  -- The rest of `handleCreateFolder` after the body is read.
  unfoldable pub folder_of : User → FolderBody → Act W Fault FileView
  folder_of user body =
      if trim_space body.account_id == ""
      then lift (fail Code.validation "account_id is required.")
      else create_folder accounts drive (record {
        user_id = user.id;
        account_id = trim_space body.account_id;
        name = body.name;
        parent_id = trim_space body.parent_id;
      })

  -- `handleCreateFolder`
  unfoldable pub post_folder : User → Result Failure FolderBody → Act W Fault FileView
  unfolding folder_of
  post_folder user body = do
    b ← lift (read_body "The request body must be JSON with an account_id and a name." body)
    folder_of user b

  -- `handleUpdateFile`
  unfoldable pub patch_file :
      User → String → String → Result Failure UpdateBody → Act W Fault FileView
  unfolding file_target move_target
  patch_file user account id body = do
    target ← lift (file_target account id)
    b ← lift (read_body "The request body must be JSON." body)
    move_to ← lift (move_target b.parent_id)
    update accounts drive (record {
      user_id = user.id;
      account_id = target.0;
      file_id = target.1;
      name = b.name;
      starred = b.starred;
      trashed = b.trashed;
      move_to = move_to;
    })
