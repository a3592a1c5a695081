-- ===== src/Auth/Next.antt =====
-- internal/auth/state.go, SafeNext: the paths that a sign-in may return to.
use mathlib.Core.Path.{subst}
use mera_drive.Base.{
  ℕ, String, Bool, true, false, not, ◌||◌, ◌≡◌, ◌⊎◌, refl, inl, inr, arith, eq_iff, ◌==◌, eqb,
  starts_with, contains_any, Bool-cases, if◌then◌else◌,
}

-- The code points of "\r\n".
abbrev pub is_line_end : ℕ → Bool
is_line_end c = eqb c 13 || eqb c 10

unfoldable pub safe_next : String → String
safe_next next =
    if next == "" || not (starts_with next "/")
    then "/"
    else if starts_with next "//" || starts_with next "/\\"
    then "/"
    else if contains_any is_line_end next
    then "/"
    else next

-- A path on this site: one slash that no slash or backslash follows, and no line end.
abbrev pub IsLocal : String → Type 0
IsLocal path =
    (starts_with path "/" ≡ true)
    × (starts_with path "//" ≡ false)
    × (starts_with path "/\\" ≡ false)
    × (contains_any is_line_end path ≡ false)

-- Whatever the text, the path that comes out is on this site.
pub safe_next-IsLocal : (next : String) → IsLocal (safe_next next)
unfolding safe_next contains_any
safe_next-IsLocal next = elim (Bool-cases (next == "" || not (starts_with next "/"))) [
  | inl a ↦ rw a (refl, refl, refl, refl)
  | inr a ↦ elim (Bool-cases (starts_with next "//" || starts_with next "/\\")) [
    | inl b ↦ rw (a, b) (refl, refl, refl, refl)
    | inr b ↦ elim (Bool-cases (contains_any is_line_end next)) [
      | inl c ↦ rw (a, b, c) (refl, refl, refl, refl)
      | inr c ↦ rw (a, b, c) (ground arith, ground arith, ground arith, c)
    ]
  ]
]

no_slash : (path : String) → path ≡ "" → starts_with path "/" ≡ true → ⊥
no_slash path e a = false_is_not_true (subst (λ p. starts_with p "/" ≡ true) e a)
  where
    false_is_not_true : false ≡ true → ⊥
    false_is_not_true h = ground arith

-- Where a path to return to leads: to itself when it is on this site, and to "/" otherwise.
abbrev pub Lands : String → String → Type 0
Lands next path = (IsLocal next × (path ≡ next)) ⊎ ((¬ IsLocal next) × (path ≡ "/"))

-- A path on this site is kept, and any other text becomes "/".
pub safe_next-Lands : (next : String) → Lands next (safe_next next)
unfolding safe_next
safe_next-Lands next = elim (Bool-cases (starts_with next "/")) [
  | inr a ↦ inr (λ h. ground arith, ground arith)
  | inl a ↦ elim (Bool-cases (next == "")) [
    | inl e ↦ absurd (no_slash next ((eq_iff next "").0 e) a)
    | inr e ↦ elim (Bool-cases (starts_with next "//" || starts_with next "/\\")) [
      | inl b ↦ inr (λ h. ground arith, ground arith)
      | inr b ↦ elim (Bool-cases (contains_any is_line_end next)) [
        | inl c ↦ inr (λ h. ground arith, ground arith)
        | inr c ↦ inl ((a, ground arith, ground arith, c), ground arith)
      ]
    ]
  ]
]

safe_next-local :
    (path : String)
    → starts_with path "/" ≡ true
    → starts_with path "//" ≡ false
    → starts_with path "/\\" ≡ false
    → contains_any is_line_end path ≡ false
    → safe_next path ≡ path
unfolding safe_next
safe_next-local path a b c d = elim (Bool-cases (path == "")) [
  | inl e ↦ let same : path ≡ "" = (eq_iff path "").0 e in absurd (no_slash path same a)
  | inr e ↦ rw (e, a, b, c, d) refl
]

-- A path that came out comes out again unchanged.
pub safe_next_twice : (next : String) → safe_next (safe_next next) ≡ safe_next next
unfolding safe_next
safe_next_twice next =
    let (slash, two, back, ends) = safe_next-IsLocal next in
    safe_next-local (safe_next next) slash two back ends
