-- ===== src/Base/Sorting.antt =====
-- sort.SliceStable by its contract: the stable sort of a list by a strict weak order.
use mathlib.Core.Path.{◌≡◌, refl}
use mathlib.Core.Bool.{Bool, true, false, not, ◌&&◌}
use mathlib.Core.Logic.{inl, inr}
use mathlib.Core.List.{List, [], ◌∷◌, Perm}
use mathlib.Core.List.Perm
use native.Mathlib.Omega.{arith}
use mera_drive.Base.Tests.{if◌then◌else◌, Bool-cases}
use Prim.Native.Nat.{suc}
use mera_drive.Base.Lists.{length, select, All, Elem}
use mera_drive.Base.Order.{Comparator, IsPreorder, is_lt}

module _ {A : Type 0} (less : A → A → Bool) where
  -- `x` stood before the others, so it stays before its equals.
  pub insert : A → List A → List A
  insert x [] = x ∷ []
  insert x (y ∷ ys) = let rest = insert x ys in if less y x then y ∷ rest else x ∷ y ∷ ys

  unfoldable pub sort_stable : List A → List A
  unfolding insert
  sort_stable [] = []
  sort_stable (x ∷ xs) = insert x (sort_stable xs)

  -- No element is less than one that stands before it.
  abbrev pub IsSorted : List A → Type 0
  IsSorted [] = Unit
  IsSorted (x ∷ xs) = All (λ y. less y x ≡ false) xs × IsSorted xs

  insert-perm : (x : A) (xs : List A) → Perm (insert x xs) (x ∷ xs)
  unfolding insert
  insert-perm x [] = Perm.refl (x ∷ [])
  insert-perm x (y ∷ ys) = elim (Bool-cases (less y x)) [
    | inl e ↦ rw e (Perm.trans (Perm.cons y (insert-perm x ys)) (Perm.swap x y ys))
    | inr e ↦ rw e (Perm.refl (x ∷ y ∷ ys))
  ]

  pub sort_stable-perm : (xs : List A) → Perm (sort_stable xs) xs
  unfolding sort_stable
  sort_stable-perm [] = Perm.refl []
  sort_stable-perm (x ∷ xs) =
      Perm.trans (insert-perm x (sort_stable xs)) (Perm.cons x (sort_stable-perm xs))

  All-insert : (P : A → Type 0) (x : A) (xs : List A) → P x → All P xs → All P (insert x xs)
  unfolding insert
  All-insert P x [] q h = (q, tt)
  All-insert P x (y ∷ ys) q (r, h) = ground (arith, All-insert P x ys q h)

  length-insert : (x : A) (xs : List A) → length (insert x xs) ≡ suc (length xs)
  unfolding insert
  length-insert x [] = refl
  length-insert x (y ∷ ys) = ground (arith, length-insert x ys)

  pub length-sort_stable : (xs : List A) → length (sort_stable xs) ≡ length xs
  unfolding sort_stable
  length-sort_stable [] = refl
  length-sort_stable (x ∷ xs) =
      ground (arith, length-insert x (sort_stable xs), length-sort_stable xs)

  pub All-sort_stable : (P : A → Type 0) (xs : List A) → All P xs → All P (sort_stable xs)
  unfolding sort_stable
  All-sort_stable P [] h = tt
  All-sort_stable P (x ∷ xs) (q, h) = All-insert P x (sort_stable xs) q (All-sort_stable P xs h)

  Elem-insert : (a x : A) (xs : List A) → Elem a (x ∷ xs) → Elem a (insert x xs)
  unfolding insert
  Elem-insert a x [] m = m
  Elem-insert a x (y ∷ ys) m = ground (arith, Elem-insert a x ys)

  pub Elem-sort_stable : (a : A) (xs : List A) → Elem a xs → Elem a (sort_stable xs)
  unfolding sort_stable
  Elem-sort_stable a (x ∷ xs) (inl e) = Elem-insert a x (sort_stable xs) (inl e)
  Elem-sort_stable a (x ∷ xs) (inr m) =
      Elem-insert a x (sort_stable xs) (inr (Elem-sort_stable a xs m))
  Elem-sort_stable a [] m = absurd m

module _ {A : Type 0} (less : A → A → Bool) (c : Comparator A) (p : IsPreorder c)
    (e : (a b : A) → less a b ≡ is_lt (c a b)) where
  All-below :
      (x y : A) (ys : List A)
      → less y x ≡ false
      → All (λ z. less z y ≡ false) ys
      → All (λ z. less z x ≡ false) ys
  All-below x y [] h k = tt
  All-below x y (z ∷ zs) h (k, ks) = (
    ground (arith, e y x, e z y, e z x, p.swap x y, p.swap y z, p.swap x z, p.le_trans x y z),
    All-below x y zs h ks,
  )

  insert-IsSorted : (x : A) (xs : List A) → IsSorted less xs → IsSorted less (insert less x xs)
  unfolding insert
  insert-IsSorted x [] h = (tt, tt)
  insert-IsSorted x (y ∷ ys) (k, h) = elim (Bool-cases (less y x)) [
    | inl l ↦ rw l (
      All-insert less (λ z. less z y ≡ false) x ys (ground (arith, e y x, e x y, p.swap x y)) k,
      insert-IsSorted x ys h,
    )
    | inr l ↦ rw l ((l, All-below x y ys l k), (k, h))
  ]

  pub sort_stable-IsSorted : (xs : List A) → IsSorted less (sort_stable less xs)
  unfolding sort_stable
  sort_stable-IsSorted [] = tt
  sort_stable-IsSorted (x ∷ xs) = insert-IsSorted x (sort_stable less xs) (sort_stable-IsSorted xs)

  -- The elements that a value ties with.
  abbrev pub ties : A → A → Bool
  ties a b = not (less a b) && not (less b a)

  no_tie_below : (a x y : A) → less y x ≡ true → ties a x ≡ true → ties a y ≡ true → ⊥
  no_tie_below a x y l h k = ground (
    arith,
    e y x,
    e a x,
    e x a,
    e a y,
    e y a,
    p.swap a x,
    p.swap a y,
    p.swap x y,
    p.le_trans x a y,
  )

  select-insert :
      (a x : A) (xs : List A) → select (ties a) (insert less x xs) ≡ select (ties a) (x ∷ xs)
  unfolding insert
  select-insert a x [] = refl
  select-insert a x (y ∷ ys) = ground (arith, select-insert a x ys, no_tie_below a x y)

  pub select-sort_stable :
      (a : A) (xs : List A) → select (ties a) (sort_stable less xs) ≡ select (ties a) xs
  unfolding sort_stable
  select-sort_stable a [] = refl
  select-sort_stable a (x ∷ xs) =
      rw (select-insert a x (sort_stable less xs), select-sort_stable a xs)
