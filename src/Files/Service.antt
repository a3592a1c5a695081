-- ===== src/Files/Service.antt =====
-- internal/files/service.go: listing across the connected Drives, and changes to one file. The two
-- interfaces are records of operations over the world; contexts with their timeouts and the log are
-- left out.
pub mod FanOut
pub mod Change
pub mod Targets
pub mod Stub
use mera_drive.Base.{
  ℕ, zero, suc, ◌/◌, String, Bool, true, false, not, ◌&&◌, ◌||◌, Option, none, some, List, [], ◌∷◌,
  ◌++◌, ◌==◌, ltb, leb, eqb, length, get_elem?, set, take, any, select, map, if◌then◌else◌,
}
use mera_drive.Base.Int.{ℤ, pos, negsuc}
use mera_drive.Base.Result.{Result, ok, err, Act}
use mera_drive.Apperr.{Code, Error, Fault, app, fail, tagged, compact}
use mera_drive.Google.Requests.{UpdateFileRequest}
use mera_drive.Google.Query.{ListScope, ListOptions}
use mera_drive.Google.Paths.{PathSegment}
use mera_drive.Google.File.{File, FileList}
use mera_drive.Store.{Account}
use mera_drive.Files.Cursor.{Cursor, find_token, max_accounts_per_listing}
use mera_drive.Files.Sort.{Sort}
use mera_drive.Files.View.{FileView, new_file_view}

abbrev pub default_page_size : ℕ
default_page_size = 100

abbrev pub max_page_size : ℕ
max_page_size = 500

abbrev pub min_per_account_page_size : ℕ
min_per_account_page_size = 10

-- `Accounts`: the part of the accounts service that this package needs.
pub record Accounts (W : Type 0) : Type 0 where
  pub connected : String → Act W Fault (List Account)
  pub access_token_for : String → String → Act W Fault (Account × String)
  pub note_failure : Account → Error → W → W
  pub touch : String → W → W

-- `DriveClient`: the part of the Drive API that this package needs.
pub record DriveClient (W : Type 0) : Type 0 where
  pub list_files : String → ListOptions → Act W Fault FileList
  pub get_file : String → String → Act W Fault File
  pub resolve_path : String → String → Act W Fault (List PathSegment)
  pub create_folder : String → String → String → Act W Fault File
  pub update_file : String → String → UpdateFileRequest → Act W Fault File
  pub delete_file : String → String → Act W Fault (Unit {0})

-- A zero scope or sort is `none`.
pub record ListRequest : Type 0 where
  pub user_id : String
  pub account_id : String
  pub scope : Option ListScope
  pub parent_id : String
  pub sort : Option Sort
  pub page_size : ℤ
  pub page : String

pub record Listing : Type 0 where
  pub files : List FileView
  pub path : List PathSegment
  pub next_page : String
  pub failures : List Error

unfoldable pub clamp_page_size : ℤ → ℕ
clamp_page_size (negsuc n) = default_page_size
clamp_page_size (pos n) =
    if eqb n 0 then default_page_size else if ltb max_page_size n then max_page_size else n

unfoldable pub per_account_page_size : ℕ → ℕ → ℕ
per_account_page_size requested accounts =
    if leb accounts 1
    then requested
    else if ltb (requested / accounts) min_per_account_page_size
    then min_per_account_page_size
    else requested / accounts

abbrev pub is_some : {A : Type 0} → Option A → Bool
is_some none = false
is_some (some _) = true

abbrev pub is_nil : {A : Type 0} → List A → Bool
is_nil [] = true
is_nil (_ ∷ _) = false

-- Whether an account passes the two tests of the loop of `targets`.
unfoldable pub is_target : ListRequest → Cursor → Account → Bool
is_target req resume account =
    (req.account_id == "" || account.id == req.account_id)
    && (is_nil resume || is_some (find_token account.id resume))

-- `targets`, behind the call that lists the connected accounts.
unfoldable pub targets_of : ListRequest → Cursor → List Account → Result Fault (List Account)
unfolding is_target
targets_of req resume connected =
    let targets = select (is_target req resume) connected in
    if not (req.account_id == "") && is_nil targets && is_nil resume
    then fail Code.not_found "That connected account does not exist."
    else ok (take max_accounts_per_listing targets)

-- `nextCursor`
unfoldable pub next_cursor : List Account → List String → Cursor
next_cursor (account ∷ targets) (token ∷ tokens) =
    let rest = next_cursor targets tokens in
    if token == "" then rest else (account.id, token) ∷ rest
next_cursor _ _ = []

unfoldable pub merge : List (List FileView) → List FileView
merge [] = []
merge (page ∷ pages) = page ++ merge pages
