-- ===== src/Google/Paths/Walk.antt =====
-- internal/google/files.go, ResolvePath: its bound, and when it fails.
use mathlib.Core.List.{reverse, reverse-cons}
use mera_drive.Base.{
  ℕ, zero, suc, ◌+◌, ◌≤◌, String, false, ◌≡◌, ◌≢◌, refl, ◌↔◌, List, [], ◌∷◌, ◌++◌, arith, inl, inr,
  length, length-append,
}
use mera_drive.Base.Result.{ok, err, Act, Result-cases}
use mera_drive.Apperr.{Fault}
use mera_drive.Google.Paths.{PathSegment, Node, at_root, max_path_depth, walk, resolve_path}

length-reverse : {A : Type 0} (xs : List A) → length (reverse xs) ≡ length xs
length-reverse [] = refl
length-reverse (x ∷ xs) =
    rw (reverse-cons x xs) (omega (arith, length-append (reverse xs) (x ∷ []), length-reverse xs))

abbrev segment_of : Node → PathSegment
segment_of n = record { id = n.id; name = n.name }

module _ {W : Type 0} (fetch : String → Act W Fault Node) where
  length-walk :
      (depth : ℕ) (seen : List String) (reversed : List PathSegment) (current : String) (w : W)
      (path : List PathSegment)
      → (walk fetch depth seen reversed current w).0 ≡ ok path
      → length path ≤ length reversed + depth
  unfolding walk
  length-walk zero seen reversed current w path h = ground arith
  length-walk (suc depth) seen reversed current w path h =
      let w' = (fetch current w).1 in
      grind (
        arith,
        λ (n : Node) (p : String).
            length-walk depth (current ∷ seen) (reversed ++ segment_of n ∷ []) p w' path,
        λ (n : Node). length-append reversed (segment_of n ∷ []),
      )

  walk_err :
      (depth : ℕ) (seen : List String) (s : PathSegment) (reversed : List PathSegment)
      (current : String) (w : W) (f : Fault)
      → (walk fetch depth seen (s ∷ reversed) current w).0 ≢ err f
  unfolding walk
  walk_err zero seen s reversed current w f = cc
  walk_err (suc depth) seen s reversed current w f = grind (
    arith,
    λ (n : Node) (p : String).
        walk_err depth (current ∷ seen) s (reversed ++ segment_of n ∷ []) p (fetch current w).1 f,
  )

  -- A breadcrumb that is read without an error has at most twenty levels.
  pub length-resolve_path :
      (folder : String) (w : W) (path : List PathSegment)
      → (resolve_path fetch folder w).0 ≡ ok path
      → length path ≤ 20
  unfolding resolve_path
  length-resolve_path folder w path h =
      elim (Result-cases (walk fetch max_path_depth [] [] folder w).0) [
        | inl (r, e) ↦ ground (arith, length-walk max_path_depth [] [] folder w r, length-reverse r)
        | inr (f, e) ↦ ground arith
      ]

  -- A breadcrumb fails with an error exactly when the folder is not the root and reading the folder
  -- itself fails with that error.
  pub resolve_path-err_iff :
      (folder : String) (w : W) (f : Fault)
      → ((resolve_path fetch folder w).0 ≡ err f)
        ↔ ((at_root folder ≡ false) × ((fetch folder w).0 ≡ err f))
  unfolding resolve_path walk
  resolve_path-err_iff folder w f = grind (
    arith,
    λ (n : Node) (p : String). walk_err 19 (folder ∷ []) (segment_of n) [] p (fetch folder w).1 f,
  )
