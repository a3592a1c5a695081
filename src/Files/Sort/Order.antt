-- ===== src/Files/Sort/Order.antt =====
-- internal/files/sort.go, sortFiles: a listing in order.
use Prim.Native.Nat.{Ordering}
use mathlib.Core.List.{Perm}
use mera_drive.Base.{
  String, Bool, true, false, not, ◌&&◌, ◌≡◌, List, [], ◌∷◌, arith, compare_text, select, All,
}
use mera_drive.Base.Order.{
  Comparator, IsPreorder, compare_ℕ, compare_ℤ, on, lexicographic, compare_ℕ-IsPreorder,
  compare_ℤ-IsPreorder, compare_text-IsPreorder, on-IsPreorder, reversed-IsPreorder,
  lexicographic-IsPreorder, is_lt, flip,
}
use mera_drive.Base.Sorting
use mera_drive.Files.Sort.Ranks
use mera_drive.Files.Sort.Ranks.{InOrder, not_less-InOrder}
use mera_drive.Base.Sorting.{sort_stable-perm, sort_stable-IsSorted, select-sort_stable}
use mera_drive.Files.View.{FileView, is_folder_kind}
use mera_drive.Files.Sort.{Sort, SortField, Direction, size_or_zero, compare_by, less, sort_files}

-- Folders before files.
abbrev folders_first : Comparator Bool
folders_first true true = Ordering.eq
folders_first true false = Ordering.lt
folders_first false true = Ordering.gt
folders_first false false = Ordering.eq

folders_first-IsPreorder : IsPreorder folders_first
folders_first-IsPreorder = record {
  swap = λ a b. ground arith;
  le_trans = λ a b d h k. ground arith;
}

-- No folder stands behind a file.
abbrev pub FoldersFirst : List FileView → Type 0
FoldersFirst [] = Unit
FoldersFirst (v ∷ vs) =
    (is_folder_kind v.kind ≡ false → All (λ u. is_folder_kind u.kind ≡ false) vs) × FoldersFirst vs

module _ (lower : String → String) where
  abbrev by_name : Comparator FileView
  by_name = on (λ v. lower v.name) compare_text

  abbrev directed : Sort → Comparator FileView
  directed s a b = elim s.direction [
    | Direction.descending ↦ flip (compare_by lower s.field a b)
    | Direction.ascending ↦ compare_by lower s.field a b
  ]

  -- The order that the nested tests of `less` amount to.
  abbrev order : Sort → Comparator FileView
  order s = lexicographic (on (λ v. is_folder_kind v.kind) folders_first) (
      lexicographic (directed s) (
        lexicographic by_name
          (lexicographic (on (λ v. v.account_email) compare_text) (on (λ v. v.id) compare_text))))

  compare_by-IsPreorder : (f : SortField) → IsPreorder (compare_by lower f)
  unfolding compare_by
  compare_by-IsPreorder SortField.modified_at =
      on-IsPreorder (λ (v : FileView). v.modified_at) compare_ℕ compare_ℕ-IsPreorder
  compare_by-IsPreorder SortField.size = on-IsPreorder size_or_zero compare_ℤ compare_ℤ-IsPreorder
  compare_by-IsPreorder SortField.account =
      on-IsPreorder (λ (v : FileView). v.account_email) compare_text compare_text-IsPreorder
  compare_by-IsPreorder SortField.name =
      on-IsPreorder (λ (v : FileView). lower v.name) compare_text compare_text-IsPreorder

  directed-IsPreorder : (s : Sort) → IsPreorder (directed s)
  directed-IsPreorder s = go s.direction
    where
      go :
          (d : Direction)
          → IsPreorder (λ a b. elim d [
            | Direction.descending ↦ flip (compare_by lower s.field a b)
            | Direction.ascending ↦ compare_by lower s.field a b
          ])
      go Direction.descending =
          reversed-IsPreorder (compare_by lower s.field) (compare_by-IsPreorder s.field)
      go Direction.ascending = compare_by-IsPreorder s.field

  order-IsPreorder : (s : Sort) → IsPreorder (order s)
  order-IsPreorder s = lexicographic-IsPreorder _ _ (on-IsPreorder _ _ folders_first-IsPreorder) (
      lexicographic-IsPreorder _ _ (directed-IsPreorder s) (
        lexicographic-IsPreorder _ _ (on-IsPreorder _ _ compare_text-IsPreorder) (
          lexicographic-IsPreorder _ _ (on-IsPreorder _ _ compare_text-IsPreorder)
            (on-IsPreorder _ _ compare_text-IsPreorder))))

  less-order : (s : Sort) (a b : FileView) → less lower s a b ≡ is_lt (order s a b)
  unfolding less
  less-order s a b = ground arith

  less_nowhere :
      (s : Sort) (views : List FileView)
      → Sorting.IsSorted (less lower s) (sort_files lower s views)
  unfolding sort_files
  less_nowhere s views =
      sort_stable-IsSorted (less lower s) (order s) (order-IsPreorder s) (less-order s) views

  all-InOrder :
      (s : Sort) (v : FileView) (vs : List FileView)
      → All (λ u. less lower s u v ≡ false) vs
      → All (λ u. InOrder lower s v u) vs
  all-InOrder s v [] h = tt
  all-InOrder s v (u ∷ us) (p, h) = (not_less-InOrder lower s v u p, all-InOrder s v us h)

  ranked :
      (s : Sort) (vs : List FileView)
      → Sorting.IsSorted (less lower s) vs
      → Ranks.IsSorted lower s vs
  ranked s [] h = tt
  ranked s (v ∷ vs) (p, h) = (all-InOrder s v vs p, ranked s vs h)

  -- Whatever the sort, the sorted files are a permutation of the files, and each of them stands
  -- rightly before all that follow it: no folder follows a file; of two files or of two folders the
  -- first is at most the second by the field of the sort when the direction is ascending, and at
  -- least the second when it is descending; and those that are the same by the field ascend by
  -- lower-case name, then by e-mail, then by id.
  pub sort_files-IsSorted :
      (s : Sort) (views : List FileView)
      → Perm (sort_files lower s views) views × Ranks.IsSorted lower s (sort_files lower s views)
  unfolding sort_files
  sort_files-IsSorted s views = (
    sort_stable-perm (less lower s) views,
    ranked s (sort_files lower s views) (less_nowhere s views),
  )

  -- The files that tie with a given one keep the order in which they came.
  pub sort_files-stable :
      (s : Sort) (views : List FileView) (v : FileView)
      → let tie = λ (u : FileView). not (less lower s v u) && not (less lower s u v) in
        select tie (sort_files lower s views) ≡ select tie views
  unfolding sort_files
  sort_files-stable s views v =
      select-sort_stable (less lower s) (order s) (order-IsPreorder s) (less-order s) v views

  file_before :
      (s : Sort) (v u : FileView)
      → less lower s u v ≡ false
      → is_folder_kind v.kind ≡ false
      → is_folder_kind u.kind ≡ false
  unfolding less
  file_before s v u h k = ground arith

  files_after :
      (s : Sort) (v : FileView) (vs : List FileView)
      → All (λ u. less lower s u v ≡ false) vs
      → is_folder_kind v.kind ≡ false
      → All (λ u. is_folder_kind u.kind ≡ false) vs
  files_after s v [] h k = tt
  files_after s v (u ∷ us) (p, h) k = (file_before s v u p k, files_after s v us h k)

  IsSorted-FoldersFirst :
      (s : Sort) (vs : List FileView) → Sorting.IsSorted (less lower s) vs → FoldersFirst vs
  IsSorted-FoldersFirst s [] h = tt
  IsSorted-FoldersFirst s (v ∷ vs) (p, h) = (files_after s v vs p, IsSorted-FoldersFirst s vs h)

  -- Folders lead the sorted files, by whatever field and in whichever direction they are sorted.
  pub sort_files-FoldersFirst :
      (s : Sort) (views : List FileView) → FoldersFirst (sort_files lower s views)
  sort_files-FoldersFirst s views = IsSorted-FoldersFirst s _ (less_nowhere s views)
