-- ===== src/Google/Paths/Examples.antt =====
-- internal/google/files.go, ResolvePath at concrete inputs: a folder in a folder of the root.
use mera_drive.Base.{ℕ, String, List, ◌++◌, ◌≡◌, refl, ◌==◌, [], ◌∷◌, if◌then◌else◌}
use mera_drive.Base.Result.{Result, ok, err, Act}
use mera_drive.Apperr.{Code, Fault, app, error, plain}
use mera_drive.Google.Paths.{Node, walk, resolve_path}
use mera_drive.Google.Paths.Ends.{Notes, Asks, resolve_path-Asks}

abbrev missing : Fault
missing = app (error Code.not_found (plain "That item does not exist."))

abbrev folder : String → Result Fault Node
folder id =
    if id == "f2"
    then ok (record { id = "f2"; name = "Trips"; parents = "f1" ∷ [] })
    else if id == "f1"
    then ok (record { id = "f1"; name = "Photos"; parents = "root" ∷ [] })
    else err missing

abbrev fetch : String → Act ℕ Fault Node
fetch id w = (folder id, w)

two_levels :
    (resolve_path fetch "f2" 0).0
    ≡ ok (record { id = "f1"; name = "Photos" } ∷ record { id = "f2"; name = "Trips" } ∷ [])
unfolding resolve_path walk
two_levels = refl

-- Two folders that are parents of each other, over a world that notes what it is asked for.
abbrev circle : String → Act (List String) Fault Node
circle id w = (
  ok (record { id = id; name = id; parents = (if id == "f1" then "f2" else "f1") ∷ [] }),
  w ++ id ∷ [],
)

noted : Notes circle (λ w. w)
noted = record { notes = λ id w. refl }

round_once : (resolve_path circle "f1" []).1 ≡ "f1" ∷ "f2" ∷ []
unfolding resolve_path walk
round_once = refl

resolve_path-Asks_example : Asks circle (λ w. w) noted 20 [] [] (resolve_path circle "f1" []).1
resolve_path-Asks_example = resolve_path-Asks circle (λ w. w) noted "f1" []
