-- ===== src/Files/Names.antt =====
-- internal/files/service.go, cleanName: the names that files and folders may be given.
pub mod Laws
use Prim.Native.String.{len}
use mera_drive.Base.{
  ℕ, String, Bool, ◌||◌, [], ◌∷◌, ◌==◌, ltb, eqb, trim_space, contains_any, if◌then◌else◌,
}
use mera_drive.Base.Result.{Result, ok, err}
use mera_drive.Apperr.{Code, Fault, app, error, Arg, fail}

-- In bytes.
abbrev pub max_name_length : ℕ
max_name_length = 255

-- The code points of "/\\".
abbrev pub is_slash : ℕ → Bool
is_slash c = eqb c 47 || eqb c 92

unfoldable pub clean_name : String → Result Fault String
clean_name raw =
    let name = trim_space raw in
    if name == ""
    then fail Code.validation "A name is required."
    else if ltb max_name_length (len name)
    then err (
        app (
          error Code.validation (record {
            format = "That name is longer than %d characters.";
            args = Arg.number max_name_length ∷ [];
          })))
    else if contains_any is_slash name
    then fail Code.validation "A name cannot contain a slash."
    else ok name
