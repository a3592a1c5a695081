-- ===== src/Google/Paths.antt =====
-- internal/google/files.go, ResolvePath: the walk from a folder to the root of its Drive.
pub mod Walk
pub mod Ends
mod Examples
use mathlib.Core.List.{reverse}
use mera_drive.Base.{
  ℕ, zero, suc, String, Bool, true, false, ◌||◌, Option, none, some, List, [], ◌∷◌, ◌++◌, ◌==◌, any,
  if◌then◌else◌,
}
use mera_drive.Base.Result.{Result, ok, err, Act}
use mera_drive.Apperr.{Fault}
use mera_drive.Google.Query.{root_folder_alias}

abbrev pub max_path_depth : ℕ
max_path_depth = 20

pub record PathSegment : Type 0 where
  pub id : String
  pub name : String

-- What one GET of a folder is answered.
pub record Node : Type 0 where
  pub id : String
  pub name : String
  pub parents : List String

-- The walk has passed the root.
abbrev pub at_root : String → Bool
at_root current = current == "" || current == root_folder_alias

module _ {W : Type 0} (fetch : String → Act W Fault Node) where
  -- The loop, over the levels left, `seen`, `reversed` and `current`.
  pub walk : ℕ → List String → List PathSegment → String → Act W Fault (List PathSegment)
  walk zero seen reversed current w = (ok reversed, w)
  walk (suc depth) seen reversed current w =
      let (reply, w') = fetch current w in
      let further =
        λ (r : List PathSegment) (parent : String). walk depth (current ∷ seen) r parent w' in
      if at_root current || any (λ s. s == current) seen then (ok reversed, w) else elim reply [
        | err f ↦ elim reversed [ [] ↦ (err f, w') | s ∷ r ↦ (ok (s ∷ r), w') ]
        | ok node ↦
            let longer = reversed ++ record { id = node.id; name = node.name } ∷ [] in
            elim node.parents [ [] ↦ (ok longer, w') | parent ∷ _ ↦ further longer parent ]
      ]

  abbrev turned : Result Fault (List PathSegment) × W → Result Fault (List PathSegment) × W
  turned (ok reversed, w) = (ok (reverse reversed), w)
  turned (err f, w) = (err f, w)

  pub resolve_path : String → Act W Fault (List PathSegment)
  resolve_path folder w =
      if at_root folder then (ok [], w) else turned (walk max_path_depth [] [] folder w)
