-- ===== src/Files/Service/Change.antt =====
-- internal/files/service.go, CreateFolder, Update and Delete: changes to one Drive.
pub mod Laws
mod Examples
use mera_drive.Base.{
  String, Bool, true, false, not, ◌&&◌, Option, none, some, List, [], ◌∷◌, ◌==◌, join,
  if◌then◌else◌,
}
use mera_drive.Base.Result.{Result, ok, err, Act, ◌>>=◌ as then_result}
use mera_drive.Base.Act.{pure, raise, lift, perform, ◌>>=◌, ◌>>◌}
use mera_drive.Apperr.{Code, Error, Fault, app, error, plain, tagged}
use mera_drive.Google.File.{File}
use mera_drive.Store.{Account}
use mera_drive.Files.Names.{clean_name}
use mera_drive.Files.View.{FileView, new_file_view}
use mera_drive.Files.Service.{Accounts, DriveClient, is_some}

pub record CreateFolderRequest : Type 0 where
  pub user_id : String
  pub account_id : String
  pub name : String
  pub parent_id : String

pub record UpdateRequest : Type 0 where
  pub user_id : String
  pub account_id : String
  pub file_id : String
  pub name : Option String
  pub starred : Option Bool
  pub trashed : Option Bool
  pub move_to : String

-- The name of an update, cleaned where there is one.
unfoldable pub cleaned : Option String → Result Fault (Option String)
cleaned none = ok none
cleaned (some raw) = elim (clean_name raw) [ ok name ↦ ok (some name) | err f ↦ err f ]

abbrev pub is_nothing : Option String → UpdateRequest → Bool
is_nothing name req =
    not (is_some name)
    && not (is_some req.starred)
    && not (is_some req.trashed)
    && req.move_to == ""

module _ {W : Type 0} (accounts : Accounts W) (drive : DriveClient W) where
  -- A failing Drive call: the error is tagged and noted, and the tagged error is returned.
  unfoldable pub or_fail : {A : Type 0} → Account → Act W Fault A → Act W Fault A
  or_fail account call w =
      let (reply, w') = call w in
      elim reply [
        | ok a ↦ (ok a, w')
        | err f ↦ (
          err (app (tagged f account.id)),
          accounts.note_failure account (tagged f account.id) w',
        )
      ]

  unfoldable pub create_folder : CreateFolderRequest → Act W Fault FileView
  unfolding or_fail
  create_folder req = do
    name ← lift (clean_name req.name)
    granted ← accounts.access_token_for req.user_id req.account_id
    file ← or_fail granted.0 (drive.create_folder granted.1 name req.parent_id)
    perform (accounts.touch granted.0.id)
    pure (new_file_view file granted.0)

  -- The parents that a move adds and removes.
  unfoldable pub moved : Account → String → UpdateRequest → Act W Fault (String × String)
  unfolding or_fail
  moved account token req w =
      let read = or_fail account (drive.get_file token req.file_id) in
      if req.move_to == ""
      then (ok ("", ""), w)
      else (do current ← read; pure (req.move_to, join "," current.parents)) w

  unfoldable pub update : UpdateRequest → Act W Fault FileView
  unfolding cleaned moved or_fail
  update req = do
    name ← lift (cleaned req.name)
    if is_nothing name req
        then raise (
            app (
              error Code.validation
                (plain "Nothing to update. Send a name, starred, trashed or parent.")))
        else do
          granted ← accounts.access_token_for req.user_id req.account_id
          parents ← moved granted.0 granted.1 req
          file ← or_fail granted.0 (
              drive.update_file granted.1 req.file_id (record {
                name = name;
                starred = req.starred;
                trashed = req.trashed;
                add_parent = parents.0;
                remove_parent = parents.1;
              }))
          perform (accounts.touch granted.0.id)
          pure (new_file_view file granted.0)

  unfoldable pub delete : String → String → String → Bool → Act W Fault (Unit {0})
  unfolding update or_fail
  delete user_id account_id file_id false = do
    _ ← update (record {
      user_id = user_id;
      account_id = account_id;
      file_id = file_id;
      name = none;
      starred = none;
      trashed = some true;
      move_to = "";
    })
    pure tt
  delete user_id account_id file_id true = do
    granted ← accounts.access_token_for user_id account_id
    _ ← or_fail granted.0 (drive.delete_file granted.1 file_id)
    perform (accounts.touch granted.0.id)
    pure tt
