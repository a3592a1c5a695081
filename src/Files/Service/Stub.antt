-- ===== src/Files/Service/Stub.antt =====
-- Two accounts, one of which is down, and a Drive that answers, for the examples of
-- internal/files/service.go.
use mera_drive.Base.{ℕ, suc, String, none, some, [], ◌∷◌, ◌==◌, if◌then◌else◌}
use mera_drive.Base.Result.{Result, ok}
use mera_drive.Apperr.{Code, Fault, fail}
use mera_drive.Samples.{work, home, notes, photos}
use mera_drive.Store.{Account}
use mera_drive.Files.Cursor.{Codec}
use mera_drive.Files.Service.{Accounts, DriveClient}

abbrev pub granted : String → Result Fault (Account × String)
granted id = if id == "a1" then ok (work, "t1") else fail Code.upstream_unavailable "down"

abbrev pub accounts : Accounts ℕ
accounts = record {
  connected = λ user_id w. (ok (work ∷ home ∷ []), w);
  access_token_for = λ user_id id w. (granted id, w);
  note_failure = λ a e w. suc w;
  touch = λ id w. w;
}

abbrev pub drive : DriveClient ℕ
drive = record {
  list_files =
      λ token opts w. (ok (record { files = notes ∷ photos ∷ []; next_page_token = "" }), w);
  get_file = λ token id w. (ok notes, w);
  resolve_path = λ token id w. (ok [], w);
  create_folder = λ token name parent w. (ok photos, w);
  update_file = λ token id req w. (ok notes, w);
  delete_file = λ token id w. (ok tt, w);
}

abbrev pub codec : Codec
codec = record {
  marshal = λ c. some "pages";
  unmarshal = λ s. none;
  encode_string = λ s. s;
  decode_string = λ s. none;
}
