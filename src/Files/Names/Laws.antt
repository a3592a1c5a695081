-- ===== src/Files/Names/Laws.antt =====
-- internal/files/service.go, cleanName: the shape of accepted names.
use Prim.Native.Char.{Char, code}
use Prim.Native.String.{len}
use mera_drive.Base.{
  ◌≤◌, String, false, ◌≡◌, ◌≢◌, refl, ◌&&◌, arith, ◌==◌, eq_iff, is_space, trim_left, trim_right,
  trim_space, contains_any, Bool-cases, inl, inr, if◌then◌else◌,
}
use mathlib.Core.Path.{subst}
use text.Mathlib.TextLemmas.{cons-ne-nil}
use mera_drive.Base.Result.{ok}
use mera_drive.Files.Names.{clean_name, is_slash}

-- No white space at the front, none at the end.
abbrev pub StartsBare : String → Type 0
StartsBare String.[] = Unit
StartsBare (String.◌∷◌ c s) = is_space (code c) ≡ false

abbrev pub EndsBare : String → Type 0
EndsBare String.[] = Unit
EndsBare (String.◌∷◌ c String.[]) = is_space (code c) ≡ false
EndsBare (String.◌∷◌ c (String.◌∷◌ d s)) = EndsBare (String.◌∷◌ d s)

trim_left-StartsBare : (s : String) → StartsBare (trim_left s)
unfolding trim_left
trim_left-StartsBare String.[] = tt
trim_left-StartsBare (String.◌∷◌ c s) = elim (Bool-cases (is_space (code c))) [
  | inl e ↦ rw e (trim_left-StartsBare s)
  | inr e ↦ rw e e
]

-- What is left of a text that is not all white space keeps its first code point.
trim_right-StartsBare : (s : String) → StartsBare s → StartsBare (trim_right s)
unfolding trim_right
trim_right-StartsBare String.[] h = tt
trim_right-StartsBare (String.◌∷◌ c s) h = rw h h

EndsBare-cons :
    (c : Char) (s : String)
    → EndsBare s
    → (is_space (code c) && s == "") ≡ false
    → EndsBare (String.◌∷◌ c s)
EndsBare-cons c String.[] h k = ground arith
EndsBare-cons c (String.◌∷◌ d s) h k = h

trim_right-EndsBare : (s : String) → EndsBare (trim_right s)
unfolding trim_right
trim_right-EndsBare String.[] = tt
trim_right-EndsBare (String.◌∷◌ c s) = elim (Bool-cases (is_space (code c) && trim_right s == "")) [
  | inl e ↦ rw e tt
  | inr e ↦ rw e (EndsBare-cons c (trim_right s) (trim_right-EndsBare s) e)
]

trim_left_of_StartsBare : (s : String) → StartsBare s → trim_left s ≡ s
unfolding trim_left
trim_left_of_StartsBare String.[] h = refl
trim_left_of_StartsBare (String.◌∷◌ c s) h = rw h

trim_right-cons :
    (c : Char) (s : String)
    → trim_right (String.◌∷◌ c s)
      ≡ (if is_space (code c) && trim_right s == "" then "" else String.◌∷◌ c (trim_right s))
unfolding trim_right
trim_right-cons c s = refl

cons-ne-empty : (c : Char) (s : String) → (String.◌∷◌ c s == "") ≡ false
cons-ne-empty c s = ground (arith, eq_iff (String.◌∷◌ c s) "", cons-ne-nil c s)

trim_right_of_EndsBare : (s : String) → EndsBare s → trim_right s ≡ s
trim_right_of_EndsBare String.[] h = unfold trim_right in refl
trim_right_of_EndsBare (String.◌∷◌ c String.[]) h = unfold trim_right in rw h
trim_right_of_EndsBare (String.◌∷◌ c (String.◌∷◌ d s)) h =
    rw (trim_right-cons c (String.◌∷◌ d s))
      (rw (trim_right_of_EndsBare (String.◌∷◌ d s) h) (ground (arith, cons-ne-empty d s)))

trim_space_bare : (s : String) → StartsBare (trim_space s) × EndsBare (trim_space s)
unfolding trim_space
trim_space_bare s = (
  trim_right-StartsBare (trim_left s) (trim_left-StartsBare s),
  trim_right-EndsBare (trim_left s),
)

trim_space_of_bare : (s : String) → StartsBare s → EndsBare s → trim_space s ≡ s
unfolding trim_space
trim_space_of_bare s h k = rw (trim_left_of_StartsBare s h) (trim_right_of_EndsBare s k)

-- What the tests of `clean_name` accept.
clean_name_tests :
    (raw name : String)
    → clean_name raw ≡ ok name
    → (trim_space raw ≡ name)
      × (name ≢ "")
      × (len name ≤ 255)
      × (contains_any is_slash name ≡ false)
unfolding clean_name
clean_name_tests raw name h = ground (arith, eq_iff (trim_space raw) "")

clean_name_again :
    (name : String)
    → trim_space name ≡ name
    → name ≢ ""
    → len name ≤ 255
    → contains_any is_slash name ≡ false
    → clean_name name ≡ ok name
unfolding clean_name
clean_name_again name t ne short bare = ground (arith, eq_iff name "")

-- An accepted name is not empty, has at most 255 bytes, holds no slash of either kind and has no
-- white space at either end; and it is accepted again as it stands.
pub clean_name-ok :
    (raw name : String)
    → clean_name raw ≡ ok name
    → (name ≢ "")
      × (len name ≤ 255)
      × (contains_any is_slash name ≡ false)
      × StartsBare name
      × EndsBare name
      × (clean_name name ≡ ok name)
clean_name-ok raw name h =
    let (trimmed, ne, short, no_slash) = clean_name_tests raw name h in
    let (front, back) = trim_space_bare raw in
    let front' : StartsBare name = subst StartsBare trimmed front in
    let back' : EndsBare name = subst EndsBare trimmed back in
    (
      ne,
      short,
      no_slash,
      front',
      back',
      clean_name_again name (trim_space_of_bare name front' back') ne short no_slash,
    )
