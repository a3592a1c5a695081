-- ===== src/Google/FileListing.antt =====
-- internal/google/files.go, ListFiles: the request for one page of a listing.
use mera_drive.Base.{ℕ, String, true, none, List, [], ◌∷◌, ◌++◌, ◌<>◌, map}
use mera_drive.Base.Result.{Act}
use mera_drive.Base.Act.{pure, ◌>>=◌}
use mera_drive.Apperr.{Fault}
use mera_drive.Google.Drive.{Net, call}
use mera_drive.Google.File.{FileList, FileWire, Parsers, to_file}
use mera_drive.Google.Query.{ListOptions, build_list_query}
use mera_drive.Google.Requests.{Body, filled, file_fields}

-- The answer, before its files are converted.
pub record ListWire : Type 0 where
  pub next_page_token : String
  pub files : List FileWire

-- The parameters of the request. `itoa` is strconv.Itoa.
unfoldable pub list_parameters : (ℕ → String) → ListOptions → List (String × String)
unfolding build_list_query
list_parameters itoa opts =
    ("fields", "nextPageToken,files(" <> (file_fields <> ")"))
      ∷ ("q", build_list_query opts)
      ∷ ("pageSize", itoa opts.page_size)
      ∷ ("supportsAllDrives", "true")
      ∷ ("includeItemsFromAllDrives", "true")
      ∷ ("corpora", "allDrives")
      ∷ filled "orderBy" (λ s. s) opts.order_by
    ++ filled "pageToken" (λ s. s) opts.page_token

module _ {W : Type 0} (net : Net W Body ListWire) (parsers : Parsers) (itoa : ℕ → String)
    (base : String) (encode : List (String × String) → String) where
  unfoldable pub list_files : ListOptions → Act W Fault FileList
  unfolding list_parameters to_file
  list_files opts = do
    raw ←
        call net (record { next_page_token = ""; files = [] }) true
          (record {
            method = "GET";
            target = base <> ("/files?" <> encode (list_parameters itoa opts));
            body = none;
            idempotent = true;
          })
    pure (record { files = map (to_file parsers) raw.files; next_page_token = raw.next_page_token })
