-- ===== src/Files/Service/FanOut/Stamps.antt =====
-- internal/files/service.go, listOne: what an account answers carries its id.
use mera_drive.Base.{String, ◌≡◌, inl, inr, refl, List, [], ◌∷◌, map, arith, All}
use mera_drive.Base.Result.{Result, ok, err, Result-cases}
use mera_drive.Apperr.{Fault, tagged}
use mera_drive.Google.Query.{ListOptions}
use mera_drive.Google.File.{File, FileList}
use mera_drive.Store.{Account}
use mera_drive.Files.View.{new_file_view}
use mera_drive.Files.Service.{Accounts, DriveClient}
use mera_drive.Files.Service.FanOut.{Slice, list_one}

-- What a slice says of its account: every file and every failure carries the account's id.
abbrev pub Stamped : Account → Slice → Type 0
Stamped a (ok (views, token)) = All (λ v. v.account_id ≡ a.id) views
Stamped a (err e) = e.account_id ≡ a.id

new_file_view-account :
    (a : Account) (files : List File)
    → All (λ v. v.account_id ≡ a.id) (map (λ f. new_file_view f a) files)
unfolding new_file_view
new_file_view-account a [] = tt
new_file_view-account a (f ∷ files) = (refl, new_file_view-account a files)

tagged-account : (f : Fault) (id : String) → (tagged f id).account_id ≡ id
unfolding tagged
tagged-account f id = refl

module _ {W : Type 0} (accounts : Accounts W) (drive : DriveClient W) (user_id : String)
    (opts : ListOptions) (a : Account) (w : W) where
  access : Result Fault (Account × String) × W
  access = accounts.access_token_for user_id a.id w

  list_one_denied :
      (f : Fault)
      → access.0 ≡ err f
      → (list_one accounts drive user_id opts a w).0 ≡ err (tagged f a.id)
  unfolding list_one access
  list_one_denied f e = ground arith

  list_one_failed :
      (b : Account) (token : String) (f : Fault)
      → access.0 ≡ ok (b, token)
      → (drive.list_files token opts access.1).0 ≡ err f
      → (list_one accounts drive user_id opts a w).0 ≡ err (tagged f a.id)
  unfolding list_one access
  list_one_failed b token f e h = ground arith

  list_one_listed :
      (b : Account) (token : String) (l : FileList)
      → access.0 ≡ ok (b, token)
      → (drive.list_files token opts access.1).0 ≡ ok l
      → (list_one accounts drive user_id opts a w).0
        ≡ ok (map (λ f. new_file_view f a) l.files, l.next_page_token)
  unfolding list_one access
  list_one_listed b token l e h = ground arith

  pub list_one-Stamped : Stamped a (list_one accounts drive user_id opts a w).0
  list_one-Stamped = elim (Result-cases access.0) [
    | inr (f, e) ↦ rw (list_one_denied f e) (tagged-account f a.id)
    | inl ((b, token), e) ↦ elim (Result-cases (drive.list_files token opts access.1).0) [
      | inr (f, h) ↦ rw (list_one_failed b token f e h) (tagged-account f a.id)
      | inl (l, h) ↦ rw (list_one_listed b token l e h) (new_file_view-account a l.files)
    ]
  ]
