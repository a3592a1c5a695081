-- ===== src/Accounts/Order.antt =====
-- internal/accounts/service.go, Reorder: the order of the account cards.
use mera_drive.Base.{
  ℕ, suc, String, Bool, true, false, not, ◌≡◌, inl, inr, refl, arith, eq_iff, Option, none, some,
  List, [], ◌∷◌, ◌==◌, eqb, length, any, map, if◌then◌else◌, All, Elem, Bool-cases, Option-cases,
}
use mathlib.Core.Path.{sym}
use mathlib.Core.List.{Perm}
use mathlib.Core.List.Perm
use mera_drive.Base.Result.{Result, ok, err, Act}
use mera_drive.Base.Act.{lift, ◌>>=◌, ◌>>◌}
use mera_drive.Apperr.{Code, Arg, text, number, Fault, app, error}
use mera_drive.Store.{Account}
use mera_drive.Accounts.{Deps, or_error, internal_error}

-- The lookup in `byID`, where a later row of the same id stands before an earlier one.
unfoldable pub lookup : String → List Account → Option Account
lookup id [] = none
lookup id (a ∷ stored) = elim (lookup id stored) [
  | some b ↦ some b
  | none ↦ if a.id == id then some a else none
]

abbrev pub is_known : String → List Account → Bool
is_known id stored = elim (lookup id stored) [ none ↦ false | some a ↦ true ]

abbrev refuse : String → List Arg → Result Fault (Unit {0})
refuse format args = err (app (error Code.validation (record { format = format; args = args })))

-- The loop that checks the ids; `seen` holds those before.
unfoldable pub check_ids : List Account → List String → List String → Result Fault (Unit {0})
unfolding lookup
check_ids stored seen [] = ok tt
check_ids stored seen (id ∷ rest) =
    let result = check_ids stored (id ∷ seen) rest in
    if not (is_known id stored)
    then refuse "Unknown connected account %q." (text id ∷ [])
    else if any (λ s. s == id) seen
    then refuse "Connected account %q appears twice." (text id ∷ [])
    else result

unfoldable pub check_order : List Account → List String → Result Fault (Unit {0})
unfolding check_ids
check_order stored ordered_ids =
    if not (eqb (length ordered_ids) (length stored))
    then refuse "The order must list all %d connected accounts, got %d."
        (number (length stored) ∷ number (length ordered_ids) ∷ [])
    else check_ids stored [] ordered_ids

module _ {W : Type 0} (deps : Deps W) where
  -- The writes of one account's position.
  unfoldable pub place : List Account → ℕ → String → Act W Fault (Unit {0})
  unfolding or_error internal_error lookup
  place stored position id w = elim (lookup id stored) [
    | none ↦ (ok tt, w)
    | some account ↦
        if eqb account.sort_order position
        then (ok tt, w)
        else or_error (internal_error "Could not save the account order.")
            (deps.update_account (record account { sort_order = position })) w
  ]

  unfoldable pub save_order : List Account → ℕ → List String → Act W Fault (Unit {0})
  unfolding place
  save_order stored position [] w = (ok tt, w)
  save_order stored position (id ∷ rest) w =
      let (reply, w') = place stored position id w in
      let after = save_order stored (suc position) rest w' in
      elim reply [ ok u ↦ after | err f ↦ (err f, w') ]

  unfoldable pub reorder : String → List String → Act W Fault (Unit {0})
  unfolding or_error internal_error check_order save_order
  reorder user_id ordered_ids = do
    stored ←
        or_error (internal_error "Could not read your connected accounts.")
          (deps.list_accounts user_id)
    lift (check_order stored ordered_ids)
    save_order stored 0 ordered_ids

-- One occurrence less.
drop_one : String → List String → List String
drop_one x [] = []
drop_one x (y ∷ ys) = let rest = drop_one x ys in if y == x then ys else y ∷ rest

drop_one-perm : (x : String) (ys : List String) → Elem x ys → Perm (x ∷ drop_one x ys) ys
unfolding drop_one
drop_one-perm x [] m = absurd m
drop_one-perm x (y ∷ ys) m = elim (Bool-cases (y == x)) [
  | inl e ↦ let p : y ≡ x = ground (arith, eq_iff y x) in rw (e, sym p) (Perm.refl (y ∷ ys))
  | inr e ↦
      let rest : Elem x ys = ground (arith, eq_iff y x) in
      rw e (Perm.trans (Perm.swap y x (drop_one x ys)) (Perm.cons y (drop_one-perm x ys rest)))
]

length-drop_one :
    (x : String) (ys : List String) → Elem x ys → suc (length (drop_one x ys)) ≡ length ys
unfolding drop_one
length-drop_one x [] m = absurd m
length-drop_one x (y ∷ ys) m = ground (arith, eq_iff y x, length-drop_one x ys)

Elem-drop_one :
    (x z : String) (ys : List String) → (x == z) ≡ false → Elem z ys → Elem z (drop_one x ys)
unfolding drop_one
Elem-drop_one x z [] h m = m
Elem-drop_one x z (y ∷ ys) h m = ground (arith, eq_iff y x, eq_iff x z, Elem-drop_one x z ys h)

All-drop_one :
    (x : String) (xs ys : List String)
    → All (λ z. (x == z) ≡ false) xs
    → All (λ z. Elem z ys) xs
    → All (λ z. Elem z (drop_one x ys)) xs
All-drop_one x [] ys h k = tt
All-drop_one x (z ∷ xs) ys (p, h) (m, k) = (Elem-drop_one x z ys p m, All-drop_one x xs ys h k)

abbrev pub NoRepeat : List String → Type 0
NoRepeat [] = Unit
NoRepeat (x ∷ xs) = All (λ z. (x == z) ≡ false) xs × NoRepeat xs

-- Distinct elements of a list of the same length are all of it.
NoRepeat-perm :
    (xs ys : List String)
    → NoRepeat xs
    → All (λ x. Elem x ys) xs
    → length xs ≡ length ys
    → Perm xs ys
NoRepeat-perm [] [] h k l = Perm.refl []
NoRepeat-perm [] (y ∷ ys) h k l = absurd (omega arith)
NoRepeat-perm (x ∷ xs) ys (p, h) (m, k) l =
    Perm.trans
      (Perm.cons x (
        NoRepeat-perm xs (drop_one x ys) h (All-drop_one x xs ys p k)
          (ground (arith, length-drop_one x ys m))))
      (drop_one-perm x ys m)

abbrev pub ids_of : List Account → List String
ids_of = map (λ a. a.id)

lookup-Elem :
    (id : String) (stored : List Account) (a : Account)
    → lookup id stored ≡ some a
    → Elem id (ids_of stored)
unfolding lookup
lookup-Elem id [] a h = absurd (ground arith)
lookup-Elem id (b ∷ stored) a h = elim (Option-cases (lookup id stored)) [
  | inr (c, e) ↦ inr (lookup-Elem id stored c e)
  | inl e ↦ inl (ground (arith, eq_iff b.id id))
]

apart :
    (id : String) (seen ids : List String)
    → All (λ x. any (λ s. s == x) (id ∷ seen) ≡ false) ids
    → All (λ z. (id == z) ≡ false) ids
apart id seen [] h = tt
apart id seen (x ∷ ids) (p, h) = (ground arith, apart id seen ids h)

All-less_seen :
    (id : String) (seen ids : List String)
    → All (λ x. any (λ s. s == x) (id ∷ seen) ≡ false) ids
    → All (λ x. any (λ s. s == x) seen ≡ false) ids
All-less_seen id seen [] h = tt
All-less_seen id seen (x ∷ ids) (p, h) = (ground arith, All-less_seen id seen ids h)

-- What the loop has checked of the ids.
check_ids-ok :
    (stored : List Account) (seen ids : List String)
    → check_ids stored seen ids ≡ ok tt
    → NoRepeat ids
      × All (λ x. any (λ s. s == x) seen ≡ false) ids
      × All (λ x. Elem x (ids_of stored)) ids
unfolding check_ids
check_ids-ok stored seen [] h = (tt, tt, tt)
check_ids-ok stored seen (id ∷ rest) h =
    let (distinct, fresh, known) = check_ids-ok stored (id ∷ seen) rest (ground arith) in
    elim (Option-cases (lookup id stored)) [
      | inl e ↦ absurd (ground arith)
      | inr (a, e) ↦ (
        (apart id seen rest fresh, distinct),
        (ground arith, All-less_seen id seen rest fresh),
        (lookup-Elem id stored a e, known),
      )
    ]

length-ids_of : (stored : List Account) → length (ids_of stored) ≡ length stored
length-ids_of [] = refl
length-ids_of (a ∷ stored) = ground (arith, length-ids_of stored)

-- The ids of an accepted order are those of stored accounts, and none comes twice.
pub check_order-Known :
    (stored : List Account) (ordered_ids : List String)
    → check_order stored ordered_ids ≡ ok tt
    → NoRepeat ordered_ids × All (λ x. Elem x (ids_of stored)) ordered_ids
unfolding check_order
check_order-Known stored ordered_ids h =
    let checked : check_ids stored [] ordered_ids ≡ ok tt = ground arith in
    let (distinct, fresh, known) = check_ids-ok stored [] ordered_ids checked in (distinct, known)

-- An order that is accepted lists the ids of the stored accounts, each of them as often as it is
-- stored.
pub check_order-perm :
    (stored : List Account) (ordered_ids : List String)
    → check_order stored ordered_ids ≡ ok tt
    → Perm ordered_ids (ids_of stored)
unfolding check_order
check_order-perm stored ordered_ids h =
    let checked : check_ids stored [] ordered_ids ≡ ok tt = ground arith in
    let (distinct, fresh, known) = check_ids-ok stored [] ordered_ids checked in
    NoRepeat-perm ordered_ids (ids_of stored) distinct known (ground (arith, length-ids_of stored))
