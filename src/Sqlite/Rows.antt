-- ===== src/Sqlite/Rows.antt =====
-- Tables with unique columns: what the statements do to a list of rows.
use mera_drive.Base.{
  Bool, true, false, ◌≡◌, arith, some, List, [], ◌∷◌, ◌++◌, any, select, find_first, All, Elem,
  if◌then◌else◌,
}
use mera_drive.Sqlite.Tables.{update_where}

module _ {A : Type 0} (same : A → A → Bool) where
  -- No two rows are the same in some columns.
  abbrev pub Distinct : List A → Type 0
  Distinct [] = Unit
  Distinct (x ∷ xs) = All (λ y. same x y ≡ false) xs × Distinct xs

  All-append_one :
      (x y : A) (xs : List A)
      → All (λ z. same x z ≡ false) xs
      → same x y ≡ false
      → All (λ z. same x z ≡ false) (xs ++ y ∷ [])
  All-append_one x y [] h k = (k, tt)
  All-append_one x y (z ∷ zs) (p, h) k = (p, All-append_one x y zs h k)

  pub Distinct-append :
      (xs : List A) (y : A) → Distinct xs → any (λ x. same x y) xs ≡ false → Distinct (xs ++ y ∷ [])
  Distinct-append [] y h k = (tt, tt)
  Distinct-append (x ∷ xs) y (p, h) k =
      (All-append_one x y xs p (ground arith), Distinct-append xs y h (ground arith))

  All-select-same :
      (t : A → Bool) (x : A) (xs : List A)
      → All (λ z. same x z ≡ false) xs
      → All (λ z. same x z ≡ false) (select t xs)
  All-select-same t x [] h = tt
  All-select-same t x (y ∷ ys) (p, h) = ground (arith, All-select-same t x ys h)

  pub Distinct-select : (t : A → Bool) (xs : List A) → Distinct xs → Distinct (select t xs)
  Distinct-select t [] h = tt
  Distinct-select t (x ∷ xs) (p, h) =
      ground (arith, All-select-same t x xs p, Distinct-select t xs h)

  -- A change that leaves the columns alone.
  abbrev pub Keeps : (A → A) → Type 0
  Keeps f = (x y : A) → (same (f x) y ≡ same x y) × (same x (f y) ≡ same x y)

  All-update_where :
      (t : A → Bool) (f : A → A) (x : A) (xs : List A)
      → Keeps f
      → All (λ z. same x z ≡ false) xs
      → All (λ z. same x z ≡ false) (update_where t f xs)
  unfolding update_where
  All-update_where t f x [] k h = tt
  All-update_where t f x (y ∷ ys) k (p, h) =
      (ground (arith, (k x y).1), All-update_where t f x ys k h)

  All-head :
      (t : A → Bool) (f : A → A) (x : A) (xs : List A)
      → Keeps f
      → All (λ z. same x z ≡ false) xs
      → All (λ z. same (if t x then f x else x) z ≡ false) xs
  All-head t f x [] k h = tt
  All-head t f x (y ∷ ys) k (p, h) = (ground (arith, (k x y).0), All-head t f x ys k h)

  pub Distinct-update_where :
      (t : A → Bool) (f : A → A) (xs : List A)
      → Keeps f
      → Distinct xs
      → Distinct (update_where t f xs)
  unfolding update_where
  Distinct-update_where t f [] k h = tt
  Distinct-update_where t f (x ∷ xs) k (p, h) = (
    All-head t f x (update_where t f xs) k (All-update_where t f x xs k p),
    Distinct-update_where t f xs k h,
  )

-- A column that a change leaves alone.
pub All-update_where_kept :
    {A : Type 0} (P : A → Type 0) (t : A → Bool) (f : A → A) (xs : List A)
    → ((x : A) → P x → P (f x))
    → All P xs
    → All P (update_where t f xs)
unfolding update_where
All-update_where_kept P t f [] k h = tt
All-update_where_kept P t f (x ∷ xs) k (p, h) = (kept (t x), All-update_where_kept P t f xs k h)
  where
    kept : (b : Bool) → P (if b then f x else x)
    kept true = k x p
    kept false = p

pub find_first-Elem :
    {A : Type 0} (t : A → Bool) (xs : List A) (x : A)
    → find_first t xs ≡ some x
    → Elem x xs × (t x ≡ true)
find_first-Elem t [] x h = absurd (ground arith)
find_first-Elem t (y ∷ ys) x h = ground (arith, find_first-Elem t ys x)
