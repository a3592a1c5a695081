-- ===== src/Base/Order.antt =====
-- Comparators in three outcomes, as Go's `strings.Compare` and `cmp`: total preorders and how they
-- are put together.
use Prim.Native.Nat.{ℕ, ◌+◌, compare, Ordering}
use Prim.Native.String.{String}
use mathlib.Core.Path.{◌≡◌, refl}
use mathlib.Core.Bool.{Bool, true, false}
use native.Mathlib.Omega.{arith}
use mera_drive.Base.Int.{ℤ, pos_part, neg_part}
use mera_drive.Base.Text.{compare_text}

abbrev pub Comparator {ℓ} : Type ℓ → Type ℓ
Comparator A = A → A → Ordering

abbrev pub flip : Ordering → Ordering
flip Ordering.lt = Ordering.gt
flip Ordering.eq = Ordering.eq
flip Ordering.gt = Ordering.lt

-- `cmp != 0` decides, or the next comparison does.
abbrev pub or_else : Ordering → Ordering → Ordering
or_else Ordering.eq o = o
or_else Ordering.lt o = Ordering.lt
or_else Ordering.gt o = Ordering.gt

abbrev pub is_lt : Ordering → Bool
is_lt Ordering.lt = true
is_lt _ = false

abbrev pub is_gt : Ordering → Bool
is_gt Ordering.gt = true
is_gt _ = false

abbrev pub is_eq : Ordering → Bool
is_eq Ordering.eq = true
is_eq _ = false

-- A total preorder: `le_trans` is transitivity of "not greater".
pub record IsPreorder {A : Type 0} (c : Comparator A) : Type 0 where
  pub swap : (a b : A) → c b a ≡ flip (c a b)
  pub le_trans : (a b d : A) → is_gt (c a b) ≡ false → is_gt (c b d) ≡ false → is_gt (c a d) ≡ false

abbrev pub compare_ℕ : Comparator ℕ
compare_ℕ a b = compare a b

-- `compareInt64`
abbrev pub compare_ℤ : Comparator ℤ
compare_ℤ a b = compare (pos_part a + neg_part b) (pos_part b + neg_part a)

abbrev pub on : {A B : Type 0} → (A → B) → Comparator B → Comparator A
on f c a b = c (f a) (f b)

abbrev pub reversed : {A : Type 0} → Comparator A → Comparator A
reversed c a b = flip (c a b)

abbrev pub lexicographic : {A : Type 0} → Comparator A → Comparator A → Comparator A
lexicographic c d a b = or_else (c a b) (d a b)

pub compare_ℕ-IsPreorder : IsPreorder compare_ℕ
compare_ℕ-IsPreorder = record { swap = λ a b. ground arith; le_trans = λ a b d h k. ground arith }

pub compare_ℤ-IsPreorder : IsPreorder compare_ℤ
compare_ℤ-IsPreorder = record { swap = λ a b. ground arith; le_trans = λ a b d h k. ground arith }

module _ {A : Type 0} where
  pub on-IsPreorder :
      {B : Type 0} (f : A → B) (c : Comparator B) → IsPreorder c → IsPreorder (on f c)
  on-IsPreorder f c p = record {
    swap = λ a b. p.swap (f a) (f b);
    le_trans = λ a b d. p.le_trans (f a) (f b) (f d);
  }

  pub reversed-IsPreorder : (c : Comparator A) → IsPreorder c → IsPreorder (reversed c)
  reversed-IsPreorder c p = record {
    swap = λ a b. ground (arith, p.swap a b);
    le_trans = λ a b d h k. ground (arith, p.swap a b, p.swap b d, p.swap a d, p.le_trans d b a);
  }

  pub lexicographic-IsPreorder :
      (c d : Comparator A) → IsPreorder c → IsPreorder d → IsPreorder (lexicographic c d)
  lexicographic-IsPreorder c d p q = record {
    swap = λ a b. ground (arith, p.swap a b, q.swap a b);
    le_trans = λ a b e h k. ground (
      arith,
      p.swap a b,
      p.swap b e,
      p.swap a e,
      p.le_trans a b e,
      p.le_trans e a b,
      p.le_trans b e a,
      q.le_trans a b e,
    );
  }

compare_text-swap : (s t : String) → compare_text t s ≡ flip (compare_text s t)
unfolding compare_text
compare_text-swap String.[] String.[] = refl
compare_text-swap String.[] (String.◌∷◌ d t) = refl
compare_text-swap (String.◌∷◌ c s) String.[] = refl
compare_text-swap (String.◌∷◌ c s) (String.◌∷◌ d t) = ground (arith, compare_text-swap s t)

compare_text-le_trans :
    (s t u : String)
    → is_gt (compare_text s t) ≡ false
    → is_gt (compare_text t u) ≡ false
    → is_gt (compare_text s u) ≡ false
unfolding compare_text
compare_text-le_trans String.[] t String.[] h k = refl
compare_text-le_trans String.[] t (String.◌∷◌ e u) h k = refl
compare_text-le_trans (String.◌∷◌ c s) String.[] u h k = ground arith
compare_text-le_trans (String.◌∷◌ c s) (String.◌∷◌ d t) String.[] h k = ground arith
compare_text-le_trans (String.◌∷◌ c s) (String.◌∷◌ d t) (String.◌∷◌ e u) h k =
    ground (arith, compare_text-le_trans s t u)

pub compare_text-IsPreorder : IsPreorder compare_text
compare_text-IsPreorder = record { swap = compare_text-swap; le_trans = compare_text-le_trans }
