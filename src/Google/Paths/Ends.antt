-- ===== src/Google/Paths/Ends.antt =====
-- internal/google/files.go, ResolvePath: the walk ends, whatever parents Google reports.
use mathlib.Core.List.{append-nil, append_assoc}
use mera_drive.Base.{
  ℕ, zero, suc, ◌≤◌, String, false, ◌||◌, ◌==◌, ◌≡◌, ◌⊎◌, ◌∙◌, sym, refl, inl, inr, arith, List, [],
  ◌∷◌, ◌++◌, any, length, Bool-cases,
}
use mera_drive.Base.Result.{Result, ok, err, Act, Result-cases}
use mera_drive.Apperr.{Fault}
use mera_drive.Google.Paths.{PathSegment, Node, at_root, max_path_depth, walk, turned, resolve_path}

List-cases : {A : Type 0} (xs : List A) → (xs ≡ []) ⊎ ((y : A) × (ys : List A) × (xs ≡ y ∷ ys))
List-cases [] = inl refl
List-cases (y ∷ ys) = inr (y, ys, refl)

-- No id of the second list is in the first one or comes twice.
abbrev pub NoneTwice : List String → List String → Type 0
NoneTwice seen [] = Unit
NoneTwice seen (id ∷ ids) = (any (λ s. s == id) seen ≡ false) × NoneTwice (id ∷ seen) ids

-- A world that notes the folders that it is asked for.
pub record Notes {W : Type 0} (fetch : String → Act W Fault Node) (asked : W → List String)
    : Type 0 where
  pub notes : (id : String) (w : W) → asked (fetch id w).1 ≡ asked w ++ id ∷ []

module _ {W : Type 0} (fetch : String → Act W Fault Node) (asked : W → List String)
    (h : Notes fetch asked) where
  -- What a run has asked for between two states.
  abbrev pub Asks : ℕ → List String → W → W → Type 0
  Asks depth seen w w' =
      (ids : List String) × (asked w' ≡ asked w ++ ids) × NoneTwice seen ids × (length ids ≤ depth)

  nothing : (depth : ℕ) (seen : List String) (w : W) → Asks depth seen w w
  nothing depth seen w = ([], sym (append-nil (asked w)), tt, omega arith)

  -- A request for a folder that was not seen, and what follows it.
  more :
      (depth : ℕ) (seen : List String) (current : String) (w w' : W)
      → any (λ s. s == current) seen ≡ false
      → Asks depth (current ∷ seen) (fetch current w).1 w'
      → Asks (suc depth) seen w w'
  more depth seen current w w' fresh (ids, log, once, few) = (
    current ∷ ids,
    log ∙ (rw (h.notes current w) (append_assoc (asked w) (current ∷ []) ids)),
    (fresh, once),
    omega arith,
  )

  one :
      (depth : ℕ) (seen : List String) (current : String) (w : W)
      → any (λ s. s == current) seen ≡ false
      → Asks (suc depth) seen w (fetch current w).1
  one depth seen current w fresh =
      more depth seen current w (fetch current w).1 fresh
        (nothing depth (current ∷ seen) (fetch current w).1)

  walk-Asks :
      (depth : ℕ) (seen : List String) (reversed : List PathSegment) (current : String) (w : W)
      → Asks depth seen w (walk fetch depth seen reversed current w).1
  unfolding walk
  walk-Asks zero seen reversed current w = nothing 0 seen w
  walk-Asks (suc depth) seen reversed current w =
      elim (Bool-cases (at_root current || any (λ s. s == current) seen)) [
        | inl e ↦ rw e (nothing (suc depth) seen w)
        | inr e ↦ elim (Result-cases (fetch current w).0) [
          | inr (f, r) ↦ elim (List-cases reversed) [
            | inl p ↦ rw (e, r) (rw p (one depth seen current w (ground arith)))
            | inr (s, rest, p) ↦ rw (e, r) (rw p (one depth seen current w (ground arith)))
          ]
          | inl (node, r) ↦
              let longer = reversed ++ record { id = node.id; name = node.name } ∷ [] in
              elim (List-cases node.parents) [
                | inl p ↦ rw (e, r) (rw p (one depth seen current w (ground arith)))
                | inr (parent, rest, p) ↦
                    rw (e, r)
                      (rw p (
                        more depth seen current w
                          (walk fetch depth (current ∷ seen) longer parent (fetch current w).1).1
                          (ground arith)
                          (walk-Asks depth (current ∷ seen) longer parent (fetch current w).1)))
              ]
        ]
      ]

  turned-world : (r : Result Fault (List PathSegment) × W) → (turned fetch r).1 ≡ r.1
  turned-world (ok path, w) = refl
  turned-world (err f, w) = refl

  -- The walk asks for at most twenty folders and for none of them twice, even where the parents
  -- that Google reports lead round in a circle, by any record of requests to which a request adds
  -- its folder.
  pub resolve_path-Asks :
      (folder : String) (w : W) → Asks max_path_depth [] w (resolve_path fetch folder w).1
  unfolding resolve_path
  resolve_path-Asks folder w = elim (Bool-cases (at_root folder)) [
    | inl e ↦ rw e (nothing max_path_depth [] w)
    | inr e ↦ rw e (
        rw (turned-world (walk fetch max_path_depth [] [] folder w))
          (walk-Asks max_path_depth [] [] folder w))
  ]
