-- ===== src/Files/Service/Change/Examples.antt =====
-- internal/files/service.go, Update and Delete at concrete inputs.
use mera_drive.Base.{String, true, ◌≡◌, refl, none, some}
use mera_drive.Base.Result.{ok}
use mera_drive.Samples.{work, notes}
use mera_drive.Store.{Account}
use mera_drive.Files.View.{new_file_view}
use mera_drive.Files.Service.Change.{UpdateRequest, cleaned, or_fail, moved, update}
use mera_drive.Files.Service.Change.Laws.{update-account}
use mera_drive.Files.Service.Stub.{accounts, drive}

abbrev star : UpdateRequest
star = record {
  user_id = "u1";
  account_id = "a1";
  file_id = "f1";
  name = none;
  starred = some true;
  trashed = none;
  move_to = "";
}

starred : (update accounts drive star 0).0 ≡ ok (new_file_view notes work)
unfolding update cleaned or_fail moved
starred = refl

update-account_example :
    (a : Account) × (token : String) × ((accounts.access_token_for "u1" "a1" 0).0 ≡ ok (a, token))
    × ((new_file_view notes work).account_id ≡ a.id)
    × ((new_file_view notes work).account_email ≡ a.email)
update-account_example = update-account accounts drive star 0 (new_file_view notes work) starred

abbrev nothing : UpdateRequest
nothing = record star { starred = none }
