-- ===== src/Files/Examples.antt =====
-- internal/files at concrete inputs: names, sorts, cursors and targets.
use mathlib.Core.List.{Perm}
use mera_drive.Base.{
  String, false, ◌≡◌, ◌≢◌, refl, arith, none, some, List, [], ◌∷◌, ◌==◌, eq_iff, contains_any,
  trim_space, if◌then◌else◌,
}
use mera_drive.Base.Int.{pos}
use mera_drive.Base.Result.{ok}
use mera_drive.Files.Sort.Ranks.{IsSorted}
use mera_drive.Samples.{work, home, notes, photos}
use mera_drive.Files.View.{FileView, new_file_view}
use mera_drive.Files.Sort.{SortField, Direction, Sort, sort_files}
use mera_drive.Files.Sort.Order.{sort_files-IsSorted}
use mera_drive.Files.Names.{clean_name}
use mera_drive.Files.Cursor.{Cursor, Codec, find_token, encode_cursor, decode_cursor}
use mera_drive.Files.Cursor.Trip.{RoundTrips, decode_cursor-encode_cursor}
use mera_drive.Files.Service.{ListRequest, targets_of, is_target}

abbrev lower : String → String
lower s = s

abbrev by_size : Sort
by_size = record { field = SortField.size; direction = Direction.descending }

abbrev views : List FileView
views = new_file_view notes work ∷ new_file_view notes home ∷ new_file_view photos home ∷ []

sort_files-IsSorted_example :
    Perm (sort_files lower by_size views) views
    × IsSorted lower by_size (sort_files lower by_size views)
sort_files-IsSorted_example = sort_files-IsSorted lower by_size views

abbrev cleaned : String
cleaned = "Trips 2024"

trimmed : clean_name "  Trips 2024 " ≡ ok "Trips 2024"
unfolding clean_name trim_space contains_any
trimmed = refl

abbrev pages : Cursor
pages = ("a1", "p2") ∷ ("a2", "p7") ∷ []

-- One payload is known, by the name "pages".
abbrev codec : Codec
codec = record {
  marshal = λ c. some "pages";
  unmarshal = λ s. if s == "pages" then some pages else none;
  encode_string = λ s. s;
  decode_string = λ s. some s;
}

not_blank : (s : String) → (s == "") ≡ false → s ≢ ""
not_blank s h = ground (arith, eq_iff s "")

round_trips : RoundTrips codec pages
round_trips = record {
  payload = "pages";
  marshals = refl;
  decodes = refl;
  not_empty = not_blank "pages" refl;
  read_back = pages;
  unmarshals = refl;
  same_length = refl;
  same_tokens = λ id. refl;
}

decode_cursor-encode_cursor_example :
    (d : Cursor) × (decode_cursor codec (encode_cursor codec pages) ≡ ok d)
    × ((id : String) → find_token id d ≡ find_token id pages)
decode_cursor-encode_cursor_example =
    decode_cursor-encode_cursor codec pages round_trips (omega arith)

-- The second page of the account "a2".
abbrev second_page : ListRequest
second_page = record {
  user_id = "u1";
  account_id = "";
  scope = none;
  parent_id = "";
  sort = none;
  page_size = pos 0;
  page = "";
}

only_home : targets_of second_page (("a2", "p7") ∷ []) (work ∷ home ∷ []) ≡ ok (home ∷ [])
unfolding targets_of is_target find_token
only_home = refl
