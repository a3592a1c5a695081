-- ===== src/Files/Sort/Ranks.antt =====
-- internal/files/sort.go, sortFiles: the order of a listing, key by key and in words of its own,
-- and that two files of which the second is not less stand in it.
use mera_drive.Base.{
  ◌+◌, ◌≤◌, String, true, false, ◌≡◌, refl, List, [], ◌∷◌, arith, compare_text, All,
}
use mera_drive.Base.Int.{pos_part, neg_part}
use mera_drive.Base.Order.{is_lt, is_gt, is_eq, flip, compare_text-IsPreorder}
use mera_drive.Files.View.{FileView, is_folder_kind}
use mera_drive.Files.Sort.{Sort, SortField, Direction, size_or_zero, compare_by, less}

-- A text is not behind another one.
abbrev pub TextAtMost : String → String → Type 0
TextAtMost a b = is_gt (compare_text a b) ≡ false

module _ (lower : String → String) where
  -- A file is at most another one by a field; a file without a size has the size 0.
  abbrev pub AtMost : SortField → FileView → FileView → Type 0
  AtMost SortField.modified_at v u = v.modified_at ≤ u.modified_at
  AtMost SortField.size v u =
      pos_part (size_or_zero v) + neg_part (size_or_zero u)
      ≤ pos_part (size_or_zero u) + neg_part (size_or_zero v)
  AtMost SortField.account v u = TextAtMost v.account_email u.account_email
  AtMost SortField.name v u = TextAtMost (lower v.name) (lower u.name)

  -- By a field in a direction.
  abbrev pub Directed : Direction → SortField → FileView → FileView → Type 0
  Directed Direction.ascending f v u = AtMost f v u
  Directed Direction.descending f v u = AtMost f u v

  -- Files that are the same by the field: by name, then by e-mail, then by id.
  abbrev pub Broken : FileView → FileView → Type 0
  Broken v u =
      TextAtMost (lower v.name) (lower u.name)
      × (lower v.name ≡ lower u.name
          → TextAtMost v.account_email u.account_email
            × (v.account_email ≡ u.account_email → TextAtMost v.id u.id))

  -- One file may stand before another.
  pub record InOrder (s : Sort) (v u : FileView) : Type 0 where
    pub kinds : is_folder_kind u.kind ≡ true → is_folder_kind v.kind ≡ true
    pub keys : is_folder_kind v.kind ≡ is_folder_kind u.kind → Directed s.direction s.field v u
    pub ties :
        is_folder_kind v.kind ≡ is_folder_kind u.kind
        → AtMost s.field v u
        → AtMost s.field u v
        → Broken v u

  -- Each file may stand before all that follow it.
  abbrev pub IsSorted : Sort → List FileView → Type 0
  IsSorted s [] = Unit
  IsSorted s (v ∷ vs) = All (λ u. InOrder s v u) vs × IsSorted s vs

  not_gt-AtMost :
      (f : SortField) (v u : FileView) → is_gt (compare_by lower f v u) ≡ false → AtMost f v u
  unfolding compare_by
  not_gt-AtMost SortField.modified_at v u h = ground arith
  not_gt-AtMost SortField.size v u h = ground arith
  not_gt-AtMost SortField.account v u h = h
  not_gt-AtMost SortField.name v u h = h

  compare_text_refl : (a : String) → is_eq (compare_text a a) ≡ true
  compare_text_refl a = ground (arith, compare_text-IsPreorder.swap a a)

  text_swap : (a b : String) → compare_text b a ≡ flip (compare_text a b)
  text_swap a b = compare_text-IsPreorder.swap a b

  not_lt-AtMost :
      (f : SortField) (v u : FileView) → is_lt (compare_by lower f u v) ≡ false → AtMost f v u
  unfolding compare_by
  not_lt-AtMost SortField.modified_at v u h = ground arith
  not_lt-AtMost SortField.size v u h = ground arith
  not_lt-AtMost SortField.account v u h = ground (arith, text_swap u.account_email v.account_email)
  not_lt-AtMost SortField.name v u h = ground (arith, text_swap (lower u.name) (lower v.name))

  same-is_eq :
      (f : SortField) (v u : FileView)
      → AtMost f v u
      → AtMost f u v
      → is_eq (compare_by lower f u v) ≡ true
  unfolding compare_by
  same-is_eq SortField.modified_at v u h k = ground arith
  same-is_eq SortField.size v u h k = ground arith
  same-is_eq SortField.account v u h k = ground (arith, text_swap u.account_email v.account_email)
  same-is_eq SortField.name v u h k = ground (arith, text_swap (lower u.name) (lower v.name))

  not_less-Directed :
      (s : Sort) (d : Direction) (v u : FileView)
      → s.direction ≡ d
      → less lower s u v ≡ false
      → is_folder_kind v.kind ≡ is_folder_kind u.kind
      → Directed d s.field v u
  unfolding less
  not_less-Directed s Direction.ascending v u e h k = not_lt-AtMost s.field v u (ground arith)
  not_less-Directed s Direction.descending v u e h k = not_gt-AtMost s.field u v (ground arith)

  not_less-Broken :
      (s : Sort) (v u : FileView)
      → less lower s u v ≡ false
      → is_folder_kind v.kind ≡ is_folder_kind u.kind
      → is_eq (compare_by lower s.field u v) ≡ true
      → Broken v u
  unfolding less
  not_less-Broken s v u h k e = (
    ground (arith, text_swap (lower u.name) (lower v.name)),
    λ n. (
      ground (arith, text_swap u.account_email v.account_email, compare_text_refl (lower v.name)),
      λ m. ground (
        arith,
        text_swap u.id v.id,
        compare_text_refl (lower v.name),
        compare_text_refl v.account_email,
      ),
    ),
  )

  not_less-kinds :
      (s : Sort) (v u : FileView)
      → less lower s u v ≡ false
      → is_folder_kind u.kind ≡ true
      → is_folder_kind v.kind ≡ true
  unfolding less
  not_less-kinds s v u h k = ground arith

  -- A file that is not less than another one may follow it.
  pub not_less-InOrder : (s : Sort) (v u : FileView) → less lower s u v ≡ false → InOrder s v u
  not_less-InOrder s v u h = record {
    kinds = λ k. not_less-kinds s v u h k;
    keys = not_less-Directed s s.direction v u refl h;
    ties = λ k a b. not_less-Broken s v u h k (same-is_eq s.field v u a b);
  }
