-- ===== src/Google/Query/Quoting.antt =====
-- internal/google/files.go, escapeQueryValue: how Drive reads an escaped value.
use Prim.Native.Char.{Char, code}
use text.Mathlib.TextLemmas.{nil-append, cons-append, append_assoc}
use text.Mathlib.TextEquality.{Char-path}
use mera_drive.Base.{
  String, false, ◌≡◌, refl, sym, ap, inl, inr, Option, none, some, eqb, eqb_iff, ◌∙◌, arith,
  Bool-cases, join, ◌<>◌, if◌then◌else◌,
}
use mera_drive.Google.Query.{
  quote, backslash, replace_all, escape_query_value, ListScope, ListOptions, parent_of,
  build_list_query,
}

abbrev put : Char → Option (String × String) → Option (String × String)
put c none = none
put c (some (s, rest)) = some (String.◌∷◌ c s, rest)

-- How Drive reads the rest of a quoted text: a backslash keeps the next code point, a quote ends
-- the text. The result is the text and what follows it.
pub unquote : String → Option (String × String)
unquote String.[] = none
unquote (String.◌∷◌ c String.[]) = if eqb (code c) quote then some ("", "") else none
unquote (String.◌∷◌ c (String.◌∷◌ d s)) =
    let kept = put d (unquote s) in
    let next = put c (unquote (String.◌∷◌ d s)) in
    if eqb (code c) quote
    then some ("", String.◌∷◌ d s)
    else if eqb (code c) backslash
    then kept
    else next

-- The escape of one code point.
abbrev escape_char : Char → String → String
escape_char c s =
    if eqb (code c) quote
    then "\\'" <> s
    else if eqb (code c) backslash
    then "\\\\" <> s
    else String.◌∷◌ c s

append_two :
    (a b : Char) (s : String) → String.◌∷◌ a (String.◌∷◌ b "") <> s ≡ String.◌∷◌ a (String.◌∷◌ b s)
append_two a b s = simp (cons-append, nil-append)

escape-cons :
    (c : Char) (s : String)
    → escape_query_value (String.◌∷◌ c s) ≡ escape_char c (escape_query_value s)
unfolding escape_query_value
escape-cons c s = elim (Bool-cases (eqb (code c) backslash)) [
  | inl e ↦
      let q : eqb (code c) quote ≡ false = ground arith in
      rw (e, q)
        (ap (replace_all quote "\\'") (append_two "\\" "\\" (replace_all backslash "\\\\" s))
          ∙ sym (append_two "\\" "\\" (escape_query_value s)))
  | inr e ↦ elim (Bool-cases (eqb (code c) quote)) [ inl q ↦ rw (e, q) | inr q ↦ rw (e, q) ]
]

unquote-plain :
    (c : Char) (s : String)
    → eqb (code c) quote ≡ false
    → eqb (code c) backslash ≡ false
    → unquote (String.◌∷◌ c s) ≡ put c (unquote s)
unfolding unquote
unquote-plain c String.[] q b = rw q
unquote-plain c (String.◌∷◌ d s) q b = rw (q, b)

unquote-kept :
    (d : Char) (s : String) → unquote (String.◌∷◌ "\\" (String.◌∷◌ d s)) ≡ put d (unquote s)
unfolding unquote
unquote-kept d s = refl

unquote-escape_char :
    (c : Char) (s t : String) → unquote (escape_char c s <> t) ≡ put c (unquote (s <> t))
unquote-escape_char c s t = elim (Bool-cases (eqb (code c) quote)) [
  | inl q ↦
      let e : c ≡ "'" = Char-path c "'" ((eqb_iff (code c) quote).0 q) in
      rw (q, e) (rw (append_two "\\" "'" s) (simp cons-append (unquote-kept "'" (s <> t))))
  | inr q ↦ elim (Bool-cases (eqb (code c) backslash)) [
    | inl b ↦
        let e : c ≡ "\\" = Char-path c "\\" ((eqb_iff (code c) backslash).0 b) in
        rw (q, b, e) (rw (append_two "\\" "\\" s) (simp cons-append (unquote-kept "\\" (s <> t))))
    | inr b ↦ rw (q, b) (rw cons-append (unquote-plain c (s <> t) q b))
  ]
]

unquote-end : (rest : String) → unquote (String.◌∷◌ "'" rest) ≡ some ("", rest)
unfolding unquote
unquote-end String.[] = refl
unquote-end (String.◌∷◌ d s) = refl

unquote-quote : (rest : String) → unquote ("'" <> rest) ≡ some ("", rest)
unquote-quote rest = rw (cons-append "'" "" rest) (rw nil-append (unquote-end rest))

-- Whatever the value and the text that follows, Drive's reading of the escaped value, a closing
-- quote and the text gives back the value and the text.
pub unquote-escape_query_value :
    (value rest : String) → unquote (escape_query_value value <> "'" <> rest) ≡ some (value, rest)
unquote-escape_query_value String.[] rest =
    unfold escape_query_value in rw nil-append (unquote-quote rest)
unquote-escape_query_value (String.◌∷◌ c s) rest = rw (escape-cons c s) (
    unquote-escape_char c (escape_query_value s) ("'" <> rest)
    ∙ ap (put c) (unquote-escape_query_value s rest))

-- The query of a folder listing is a quote and a text that Drive reads as the parent id and a rest
-- that leaves trashed files out, whatever the parent id.
pub build_list_query-children :
    (opts : ListOptions)
    → opts.scope ≡ ListScope.children
    → (query : String) × (build_list_query opts ≡ "'" <> query)
      × (unquote query ≡ some (parent_of opts, " in parents and trashed = false"))
unfolding build_list_query
build_list_query-children opts h = (
  escape_query_value (parent_of opts) <> "' in parents and trashed = false",
  rw h (unfold join in simp append_assoc),
  unquote-escape_query_value (parent_of opts) " in parents and trashed = false",
)
