-- ===== src/Google/Query.antt =====
-- internal/google/files.go: Drive's query language, as buildListQuery writes it.
pub mod Quoting
use Prim.Native.Char.{code}
use Prim.Native.String
use mera_drive.Base.{
  ℕ, String, Bool, Option, none, some, List, [], ◌∷◌, ◌==◌, eqb, join, ◌<>◌, if◌then◌else◌,
}

-- A text, by its code points.
abbrev pub quote : ℕ
quote = 39

abbrev pub backslash : ℕ
backslash = 92

-- strings.ReplaceAll for an old text of one code point.
unfoldable pub replace_all : ℕ → String → String → String
replace_all old new String.[] = ""
replace_all old new (String.◌∷◌ c s) =
    let rest = replace_all old new s in
    if eqb (code c) old then String.◌++◌ new rest else String.◌∷◌ c rest

unfoldable pub escape_query_value : String → String
unfolding replace_all
escape_query_value value = replace_all quote "\\'" (replace_all backslash "\\\\" value)

abbrev pub folder_mime_type : String
folder_mime_type = "application/vnd.google-apps.folder"

abbrev pub root_folder_alias : String
root_folder_alias = "root"

-- `ListScope`, after `parseScope` and the default of the listing.
pub data ListScope : Type 0 where
  children starred recent trash : ListScope

pub record ListOptions : Type 0 where
  pub scope : ListScope
  pub parent_id : String
  pub order_by : String
  pub page_size : ℕ
  pub page_token : String

abbrev pub parent_of : ListOptions → String
parent_of opts = if opts.parent_id == "" then root_folder_alias else opts.parent_id

unfoldable pub clauses : ListOptions → ListScope → List String
clauses opts ListScope.starred = "starred = true" ∷ "trashed = false" ∷ []
clauses opts ListScope.trash = "trashed = true" ∷ []
clauses opts ListScope.recent =
    "trashed = false" ∷ ("mimeType != '" <> folder_mime_type <> "'") ∷ []
clauses opts ListScope.children =
    ("'" <> escape_query_value (parent_of opts) <> "' in parents") ∷ "trashed = false" ∷ []

unfoldable pub build_list_query : ListOptions → String
unfolding clauses
build_list_query opts = join " and " (clauses opts opts.scope)
