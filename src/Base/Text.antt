-- ===== src/Base/Text.antt =====
-- Go's `strings` package, as far as the server uses it, over native text: a text is its list of
-- code points, so texts that are not valid UTF-8 are not represented.
use Prim.Native.Nat.{ℕ, compare, Ordering}
use Prim.Native.Char.{code}
use Prim.Native.String.{String}
use Prim.Native.String
use mathlib.Core.Bool.{Bool, false, ◌&&◌, ◌||◌}
use mathlib.Core.Option.{Option, none, some}
use mathlib.Core.List.{List, [], ◌∷◌}
use text.Mathlib.Text.{◌==◌}
use mera_drive.Base.Tests.{leb, eqb, if◌then◌else◌}

-- unicode.IsSpace: the code points of the property White_Space.
unfoldable pub is_space : ℕ → Bool
is_space c =
    (leb 9 c && leb c 13)
    || eqb c 32
    || eqb c 0x85
    || eqb c 0xa0
    || eqb c 0x1680
    || (leb 0x2000 c && leb c 0x200a)
    || eqb c 0x2028
    || eqb c 0x2029
    || eqb c 0x202f
    || eqb c 0x205f
    || eqb c 0x3000

unfoldable pub trim_left : String → String
unfolding is_space
trim_left String.[] = ""
trim_left (String.◌∷◌ c s) =
    let rest = trim_left s in if is_space (code c) then rest else String.◌∷◌ c s

unfoldable pub trim_right : String → String
unfolding is_space
trim_right String.[] = ""
trim_right (String.◌∷◌ c s) =
    let rest = trim_right s in if is_space (code c) && rest == "" then "" else String.◌∷◌ c rest

-- strings.TrimSpace
unfoldable pub trim_space : String → String
unfolding trim_left trim_right
trim_space s = trim_right (trim_left s)

-- strings.ContainsAny, for a set of code points given by its test.
unfoldable pub contains_any : (ℕ → Bool) → String → Bool
contains_any p String.[] = false
contains_any p (String.◌∷◌ c s) = p (code c) || contains_any p s

-- strings.Cut at one code point: what stands before and after its first occurrence.
unfoldable pub cut : ℕ → String → Option (String × String)
cut sep String.[] = none
cut sep (String.◌∷◌ c s) =
    let rest = cut sep s in
    if eqb (code c) sep
    then some ("", s)
    else elim rest [ none ↦ none | some (a, b) ↦ some (String.◌∷◌ c a, b) ]

-- strings.TrimRight, for a cutset of one code point.
unfoldable pub trim_end : ℕ → String → String
trim_end c String.[] = ""
trim_end c (String.◌∷◌ d s) =
    let rest = trim_end c s in if eqb (code d) c && rest == "" then "" else String.◌∷◌ d rest

-- strings.Split at one code point: the first part, and the parts behind it.
unfoldable pub split_parts : ℕ → String → String × List String
split_parts sep String.[] = ("", [])
split_parts sep (String.◌∷◌ c s) =
    let (part, parts) = split_parts sep s in
    if eqb (code c) sep then ("", part ∷ parts) else (String.◌∷◌ c part, parts)

unfoldable pub split : ℕ → String → List String
unfolding split_parts
split sep s = let (part, parts) = split_parts sep s in part ∷ parts

-- strings.Fields: the word that the text begins with, and the later ones.
unfoldable pub fields_parts : String → String × List String
unfolding is_space
fields_parts String.[] = ("", [])
fields_parts (String.◌∷◌ c s) =
    let (word, words) = fields_parts s in
    if is_space (code c)
    then ("", if word == "" then words else word ∷ words)
    else (String.◌∷◌ c word, words)

unfoldable pub fields : String → List String
unfolding fields_parts
fields s = let (word, words) = fields_parts s in if word == "" then words else word ∷ words

-- strings.HasSuffix
unfoldable pub ends_with : String → String → Bool
ends_with String.[] suffix = suffix == ""
ends_with (String.◌∷◌ c s) suffix = String.◌∷◌ c s == suffix || ends_with s suffix

-- strings.Join
unfoldable pub join : String → List String → String
join sep [] = ""
join sep (x ∷ []) = x
join sep (x ∷ y ∷ ys) = String.◌++◌ x (String.◌++◌ sep (join sep (y ∷ ys)))

-- strings.Compare: the order of UTF-8 bytes is the order of code points.
unfoldable pub compare_text : String → String → Ordering
compare_text String.[] String.[] = Ordering.eq
compare_text String.[] (String.◌∷◌ d t) = Ordering.lt
compare_text (String.◌∷◌ c s) String.[] = Ordering.gt
compare_text (String.◌∷◌ c s) (String.◌∷◌ d t) = elim (compare (code c) (code d)) [
  | Ordering.lt ↦ Ordering.lt
  | Ordering.gt ↦ Ordering.gt
  | Ordering.eq ↦ compare_text s t
]

infixr 65 ◌<>◌
abbrev pub ◌<>◌ : String → String → String
s <> t = String.◌++◌ s t
