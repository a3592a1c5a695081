-- ===== src/Files/Sort.antt =====
-- internal/files/sort.go. `lower` is strings.ToLower, whose Unicode tables are not modelled: any
-- function stands for it.
pub mod Order
pub mod Ranks
use Prim.Native.Nat.{Ordering}
use mera_drive.Base.{
  ℕ, String, Bool, true, false, Option, none, some, List, [], ◌∷◌, ◌==◌, ◌<>◌, compare_text,
  if◌then◌else◌,
}
use mera_drive.Base.Int.{ℤ, pos}
use mera_drive.Base.Order.{compare_ℕ, compare_ℤ, is_lt, is_gt, is_eq}
use mera_drive.Base.Sorting.{sort_stable}
use mera_drive.Base.Result.{Result, ok, err, ◌>>=◌}
use mera_drive.Apperr.{Code, Fault, app, error, Arg}
use mera_drive.Files.View.{FileView, is_folder_kind}

pub data SortField : Type 0 where
  name modified_at size account : SortField

pub data Direction : Type 0 where
  ascending descending : Direction

pub record Sort : Type 0 where
  pub field : SortField
  pub direction : Direction

unfoldable pub default_sort : Sort
default_sort = record { field = SortField.name; direction = Direction.ascending }

abbrev refused : {A : Type 0} → String → String → Result Fault A
refused format given =
    err (app (error Code.bad_request (record { format = format; args = Arg.text given ∷ [] })))

-- The two switches of `ParseSort`.
unfoldable pub parse_field : String → Result Fault SortField
parse_field field =
    if field == ""
    then ok SortField.name
    else if field == "name"
    then ok SortField.name
    else if field == "modified_at"
    then ok SortField.modified_at
    else if field == "size"
    then ok SortField.size
    else if field == "account_email"
    then ok SortField.account
    else refused "Cannot sort by %q." field

unfoldable pub parse_direction : String → Result Fault Direction
parse_direction direction =
    if direction == ""
    then ok Direction.ascending
    else if direction == "asc"
    then ok Direction.ascending
    else if direction == "desc"
    then ok Direction.descending
    else refused "Sort direction must be asc or desc, got %q." direction

unfoldable pub parse_sort : String → String → Result Fault Sort
unfolding parse_field parse_direction
parse_sort field direction = do
  f ← parse_field field
  d ← parse_direction direction
  ok (record { field = f; direction = d })

abbrev pub drive_key : SortField → String
drive_key SortField.modified_at = "modifiedTime"
drive_key SortField.size = "quotaBytesUsed"
drive_key _ = "name"

unfoldable pub drive_order_by : Sort → String
drive_order_by s = elim s.direction [
  | Direction.descending ↦ "folder," <> (drive_key s.field <> " desc")
  | Direction.ascending ↦ "folder," <> drive_key s.field
]

unfoldable pub size_or_zero : FileView → ℤ
size_or_zero v = elim v.size [ none ↦ pos 0 | some n ↦ n ]

module _ (lower : String → String) where
  -- `Sort.compare`
  unfoldable pub compare_by : SortField → FileView → FileView → Ordering
  unfolding size_or_zero
  compare_by SortField.modified_at left right = compare_ℕ left.modified_at right.modified_at
  compare_by SortField.size left right = compare_ℤ (size_or_zero left) (size_or_zero right)
  compare_by SortField.account left right = compare_text left.account_email right.account_email
  compare_by SortField.name left right = compare_text (lower left.name) (lower right.name)

  abbrev differs : Bool → Bool → Bool
  differs true b = elim b [ true ↦ false | false ↦ true ]
  differs false b = b

  -- The comparison of `sortFiles`, early return by early return.
  unfoldable pub less : Sort → FileView → FileView → Bool
  less s left right =
      let left_is_folder = is_folder_kind left.kind in
      let right_is_folder = is_folder_kind right.kind in
      let cmp = compare_by s.field left right in
      let by_name = compare_text (lower left.name) (lower right.name) in
      let by_email = compare_text left.account_email right.account_email in
      if differs left_is_folder right_is_folder
      then left_is_folder
      else if is_eq cmp
      then if is_eq by_name
        then if is_eq by_email then is_lt (compare_text left.id right.id) else is_lt by_email
        else is_lt by_name
      else elim s.direction [ Direction.descending ↦ is_gt cmp | Direction.ascending ↦ is_lt cmp ]

  unfoldable pub sort_files : Sort → List FileView → List FileView
  sort_files s views = sort_stable (less s) views
