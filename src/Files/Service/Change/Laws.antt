-- ===== src/Files/Service/Change/Laws.antt =====
-- internal/files/service.go, CreateFolder, Update and Delete: how they depend on their calls.
use mera_drive.Base.{String, true, false, ◌≡◌, ◌⊎◌, inl, inr, refl, arith}
use mera_drive.Base.Result.{ok, err, Act, Result-cases}
use mera_drive.Apperr.{Fault}
use mera_drive.Store.{Account}
use mera_drive.Files.View.{FileView, new_file_view}
use mera_drive.Files.Service.{Accounts, DriveClient}
use mera_drive.Files.Service.Change.{UpdateRequest, cleaned, is_nothing, update, delete}

-- Deleting without the permanent flag does the same whatever the erasing call of Drive would do.
pub delete_never_erases :
    {W : Type 0} (accounts : Accounts W) (drive : DriveClient W)
    (erase : String → String → Act W Fault (Unit {0})) (user_id account_id file_id : String)
    → delete accounts drive user_id account_id file_id false
      ≡ delete accounts (record drive { delete_file = erase }) user_id account_id file_id false
unfolding delete
delete_never_erases accounts drive erase user_id account_id file_id = refl

-- An update that gives a name that is refused, or that names nothing to change, fails and leaves
-- the world as it was.
pub update_refused :
    {W : Type 0} (accounts : Accounts W) (drive : DriveClient W) (req : UpdateRequest) (w : W)
    → ((f : Fault) × (cleaned req.name ≡ err f)) ⊎ (is_nothing req.name req ≡ true)
    → (f : Fault) × (update accounts drive req w ≡ (err f, w))
unfolding update
update_refused accounts drive req w h = elim (Result-cases (update accounts drive req w).0) [
  | inl (v, e) ↦ absurd (ground arith)
  | inr (f, e) ↦ (f, ground arith)
]

-- The account that a change was made with is the one that the accounts service granted, and the
-- view that comes back carries its id and its address.
pub update-account :
    {W : Type 0} (accounts : Accounts W) (drive : DriveClient W) (req : UpdateRequest) (w : W)
    (v : FileView)
    → (update accounts drive req w).0 ≡ ok v
    → (a : Account) × (token : String) × ((accounts.access_token_for req.user_id req.account_id w).0
        ≡ ok (a, token))
      × (v.account_id ≡ a.id)
      × (v.account_email ≡ a.email)
unfolding update new_file_view
update-account accounts drive req w v h =
    elim (Result-cases (accounts.access_token_for req.user_id req.account_id w).0) [
      | inl ((a, token), e) ↦ (a, token, e, ground arith, ground arith)
      | inr (f, e) ↦ absurd (ground arith)
    ]
