-- ===== src/Files/Service/FanOut.antt =====
-- internal/files/service.go, List: one page across the accounts. The goroutines of the errgroup run
-- here one after the other, in any order that the caller gives; each writes its own slot.
pub mod Slots
pub mod Stamps
pub mod Isolation
mod Examples
use mera_drive.Base.{
  ℕ, zero, suc, String, Bool, true, false, not, ◌&&◌, Option, none, some, List, [], ◌∷◌, ◌==◌,
  length, get_elem?, set, map, if◌then◌else◌,
}
use mera_drive.Base.Result.{Result, ok, err, Act}
use mera_drive.Base.Act.{pure, raise, lift, ◌>>=◌}
use mera_drive.Apperr.{Code, Error, Fault, app, error, plain, fail, tagged, compact}
use mera_drive.Google.Query.{ListScope, ListOptions}
use mera_drive.Google.Paths.{PathSegment}
use mera_drive.Store.{Account}
use mera_drive.Files.Cursor.{Cursor, Codec, find_token, encode_cursor, decode_cursor}
use mera_drive.Files.Sort.{Sort, default_sort, drive_order_by, sort_files}
use mera_drive.Files.View.{FileView, new_file_view}
use mera_drive.Files.Service.{
  Accounts, DriveClient, ListRequest, Listing, clamp_page_size, per_account_page_size, targets_of,
  next_cursor, merge,
}

-- What one account's goroutine leaves: its page and the next token, or its failure.
abbrev pub Slice : Type 0
Slice = Result Error (List FileView × String)

pub data Task : Type 0 where
  page : ℕ → Task
  breadcrumbs : Task

-- The variables that the goroutines share, and the world.
pub record Fan (W : Type 0) : Type 0 where
  pub slots : List (Option Slice)
  pub path : List PathSegment
  pub world : W

abbrev pub page_of : Option Slice → List FileView
page_of (some (ok (views, token))) = views
page_of _ = []

abbrev pub token_of : Option Slice → String
token_of (some (ok (views, token))) = token
token_of _ = ""

abbrev pub failure_of : Option Slice → Option Error
failure_of (some (err e)) = some e
failure_of _ = none

abbrev pub empty_slots {ℓ} : {A : Type ℓ} → List A → List (Option Slice)
empty_slots [] = []
empty_slots (_ ∷ xs) = none ∷ empty_slots xs

abbrev pub scope_of : ListRequest → ListScope
scope_of req = elim req.scope [ none ↦ ListScope.children | some s ↦ s ]

abbrev pub sort_of : ListRequest → Sort
sort_of req = elim req.sort [ none ↦ default_sort | some s ↦ s ]

abbrev pub token_or_none : Option String → String
token_or_none none = ""
token_or_none (some t) = t

abbrev wants_path : ListRequest → Bool
wants_path req =
    (elim (scope_of req) [ ListScope.children ↦ true | _ ↦ false ]) && not (req.parent_id == "")

abbrev pub options : ListRequest → Cursor → List Account → Account → ListOptions
options req resume targets account = record {
  scope = scope_of req;
  parent_id = req.parent_id;
  order_by = drive_order_by (sort_of req);
  page_size = per_account_page_size (clamp_page_size req.page_size) (length targets);
  page_token = token_or_none (find_token account.id resume);
}

module _ {W : Type 0} (accounts : Accounts W) (drive : DriveClient W) where
  -- `fail`
  pub note : Account → Fault → W → Error × W
  note account f w =
      let failure = tagged f account.id in (failure, accounts.note_failure account failure w)

  -- The rest of `listOne` after the token.
  list_with : Account → ListOptions → Account × String → W → Slice × W
  unfolding note
  list_with account opts (_, token) w =
      let (reply, w') = drive.list_files token opts w in
      elim reply [
        | err f ↦ let (e, w'') = note account f w' in (err e, w'')
        | ok list ↦ (
          ok (map (λ f. new_file_view f account) list.files, list.next_page_token),
          accounts.touch account.id w',
        )
      ]

  pub list_one : String → ListOptions → Account → W → Slice × W
  unfolding list_with
  list_one user_id opts account w =
      let (access, w') = accounts.access_token_for user_id account.id w in
      elim access [
        | err f ↦ (err (tagged f account.id), w')
        | ok granted ↦ list_with account opts granted w'
      ]

  -- `resolvePath`; its error is only logged.
  pub resolve : String → Account → String → W → List PathSegment × W
  resolve user_id account folder w =
      let (access, w1) = accounts.access_token_for user_id account.id w in
      elim access [
        | err f ↦ ([], w1)
        | ok (_, token) ↦
            let (reply, w2) = drive.resolve_path token folder w1 in
            elim reply [ err f ↦ ([], w2) | ok path ↦ (path, w2) ]
      ]

  -- One goroutine from start to end.
  pub run_task : ListRequest → (Account → ListOptions) → List Account → Fan W → Task → Fan W
  run_task req opts targets fan (page i) = elim (get_elem? targets i) [
    | none ↦ fan
    | some account ↦
        let (slice, w) = list_one req.user_id (opts account) account fan.world in
        record { slots = set fan.slots i (some slice); path = fan.path; world = w }
  ]
  run_task req opts targets fan breadcrumbs = elim targets [
    | [] ↦ fan
    | first ∷ _ ↦
        let (path, w) = resolve req.user_id first req.parent_id fan.world in
        if wants_path req then record { slots = fan.slots; path = path; world = w } else fan
  ]

  pub run_all : ListRequest → (Account → ListOptions) → List Account → List Task → Fan W → Fan W
  run_all req opts targets [] fan = fan
  run_all req opts targets (t ∷ tasks) fan =
      run_all req opts targets tasks (run_task req opts targets fan t)

  module _ (lower : String → String) (codec : Codec) (schedule : List Task) where
    -- What `List` makes of the slots.
    pub assemble : ListRequest → List Account → Fan W → Listing
    assemble req targets fan = record {
      files = sort_files lower (sort_of req) (merge (map page_of fan.slots));
      path = fan.path;
      next_page = encode_cursor codec (next_cursor targets (map token_of fan.slots));
      failures = compact (map failure_of fan.slots);
    }

    pub list_targets : ListRequest → Cursor → List Account → W → Listing × W
    list_targets req resume [] w =
        (record { files = []; path = []; next_page = ""; failures = [] }, w)
    list_targets req resume (a ∷ more) w =
        let targets = a ∷ more in
        let start : Fan W = record { slots = empty_slots targets; path = []; world = w } in
        let fan = run_all req (options req resume targets) targets schedule start in
        (assemble req targets fan, fan.world)

    pub list : ListRequest → Act W Fault Listing
    list req =
        if not (req.parent_id == "") && req.account_id == ""
        then raise (
            app
              (error Code.bad_request (plain "Opening a folder needs the account it belongs to.")))
        else do
          resume ← lift (decode_cursor codec req.page)
          connected ← accounts.connected req.user_id
          targets ← lift (targets_of req resume connected)
          λ w. let (listing, w') = list_targets req resume targets w in (ok listing, w')
