-- ===== src/Server/FileRoutes/Parameters.antt =====
-- internal/server/routes_files.go: what the parameters may ask for.
use mera_drive.Base.{
  ℕ, ◌≤◌, String, false, ◌≡◌, ◌⊎◌, inl, inr, refl, arith, eq_iff, some, ◌==◌, Bool-cases,
  Option-cases,
}
use mera_drive.Base.Int.{ℤ, pos, negsuc}
use mera_drive.Base.Result.{ok, Act, Result-cases}
use mera_drive.Apperr.{Fault}
use mera_drive.Store.{User}
use mera_drive.Files.Service.{Accounts, DriveClient}
use mera_drive.Files.Service.Change.Laws.{delete_never_erases}
use mera_drive.Server.FileRoutes.{Strconv, parse_page_size, parse_bool, file_target, delete_file}

-- A page size that is accepted is 0, which stands for none, or a number from 1 to 500.
pub parse_page_size-ok :
    (strconv : Strconv) (raw : String) (size : ℤ)
    → parse_page_size strconv raw ≡ ok size
    → (n : ℕ) × (size ≡ pos n) × (n ≤ 500)
unfolding parse_page_size
parse_page_size-ok strconv raw size h = elim (Bool-cases (raw == "")) [
  | inl e ↦ (0, ground arith, omega arith)
  | inr e ↦ elim (Option-cases (strconv.atoi raw)) [
    | inl f ↦ absurd (ground arith)
    | inr (negsuc n, f) ↦ absurd (ground arith)
    | inr (pos n, f) ↦ (n, ground arith, ground arith)
  ]
]

parse_bool-false :
    (strconv : Strconv) (raw : String)
    → (raw ≡ "") ⊎ (strconv.parse_bool raw ≡ some false)
    → parse_bool strconv raw ≡ ok false
unfolding parse_bool
parse_bool-false strconv raw h = ground (arith, eq_iff raw "")

-- A delete request erases nothing unless its parameter says so: without the parameter, or with
-- one that is read as false, it does the same whatever the erasing call of Drive would do.
pub delete_file-kept :
    {W : Type 0} (strconv : Strconv) (accounts : Accounts W) (drive : DriveClient W)
    (erase : String → String → Act W Fault (Unit {0})) (user : User) (account id raw : String)
    (w : W)
    → (raw ≡ "") ⊎ (strconv.parse_bool raw ≡ some false)
    → delete_file strconv accounts drive user account id raw w
      ≡ delete_file strconv accounts (record drive { delete_file = erase }) user account id raw w
unfolding delete_file
delete_file-kept strconv accounts drive erase user account id raw w h =
    let permanent = parse_bool-false strconv raw h in
    elim (Result-cases (file_target account id)) [
      | inr (f, e) ↦ rw e refl
      | inl ((a, f), e) ↦
          rw (e, permanent, delete_never_erases accounts drive erase user.id a f) refl
    ]
