-- ===== src/Google/Requests/Laws.antt =====
-- internal/google/files.go: which operations of Drive are sent once, and what an update sends.
use mera_drive.Base.{
  ℕ, ◌+◌, ◌≤◌, String, true, ◌≡◌, inl, inr, arith, Option, none, some, [], ◌∷◌, ◌==◌, Option-cases,
  if◌then◌else◌,
}
use mera_drive.Base.Result.{Result-cases}
use mera_drive.Google.Drive.{CallSpec, call}
use mera_drive.Google.Drive.Retries.{Counts, count-call}
use mera_drive.Google.Requests.{
  Json, text, flag, Body, Wire, CreateFolderRequest, CopyFileRequest, UpdateFileRequest, blank,
  call_file, create_folder, copy_file, update_file_body,
}

-- The value of a key in a body.
abbrev pub field : String → Body → Option Json
field key [] = none
field key ((k, v) ∷ body) = if k == key then some v else field key body

abbrev pub as_json : {A : Type 0} → (A → Json) → Option A → Option Json
as_json f none = none
as_json f (some a) = some (f a)

-- The body of an update has a name, a star and a trash flag exactly where the request has them,
-- with the request's values.
pub field-update_file_body :
    (req : UpdateFileRequest)
    → (field "name" (update_file_body req) ≡ as_json text req.name)
      × (field "starred" (update_file_body req) ≡ as_json flag req.starred)
      × (field "trashed" (update_file_body req) ≡ as_json flag req.trashed)
unfolding update_file_body
field-update_file_body req = elim (Option-cases req.name) [
  | inl n ↦ elim (Option-cases req.starred) [ inl e ↦ ground arith | inr (b, e) ↦ ground arith ]
  | inr (a, n) ↦ elim (Option-cases req.starred) [
    | inl e ↦ ground arith
    | inr (b, e) ↦ ground arith
  ]
]

count-call_file :
    {W : Type 0} (wire : Wire W) (count : W → ℕ) (spec : CallSpec Body) (w : W)
    → Counts wire.file count
    → count (call_file wire spec w).1 ≤ count w + (if spec.idempotent then 4 else 1)
unfolding call_file
count-call_file wire count spec w c =
    let sent = count-call wire.file count blank true spec w c in
    elim (Result-cases (call wire.file blank true spec w).0) [
      | inl (a, e) ↦ ground arith
      | inr (f, e) ↦ ground arith
    ]

-- Creating a folder and copying a file send at most one request each, by any count of requests to
-- which a request adds at most one and a wait or a random number adds none: a failure never
-- leaves two folders or two copies.
pub count-create_folder :
    {W : Type 0} (wire : Wire W) (count : W → ℕ) (folder : CreateFolderRequest) (id : String)
    (copy : CopyFileRequest) (w : W)
    → Counts wire.file count
    → (count (create_folder wire folder w).1 ≤ count w + 1)
      × (count (copy_file wire id copy w).1 ≤ count w + 1)
unfolding create_folder copy_file
count-create_folder wire count folder id copy w c =
    (count-call_file wire count _ w c, count-call_file wire count _ w c)
