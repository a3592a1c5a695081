-- ===== src/Accounts/Wired/SavedOrder.antt =====
-- internal/accounts/service.go, Reorder: the loop that saves the positions.
use mathlib.Core.Path.{subst}
use mera_drive.Base.{
  ℕ, suc, String, true, false, ◌≡◌, ◌⊎◌, eq_refl, ◌∙◌, sym, ap, inl, inr, refl, arith, eq_iff, some,
  List, [], ◌∷◌, ◌==◌, eqb, eqb_iff, All, Bool-cases,
}
use mera_drive.Base.Result.{ok, Result-cases}
use mera_drive.Store.{Account}
use mera_drive.Sqlite.Tables.{Tables}
use mera_drive.Sqlite.Maps.{changed}
use mera_drive.Sqlite.Accounts
use mera_drive.Accounts.{or_error}
use mera_drive.Accounts.Order.{lookup, place, save_order, NoRepeat}
use mera_drive.Accounts.Wired.{State, Outside, wired, clock}
use mera_drive.Accounts.Wired.Rows.{row_of, row_of-update, chosen, sort_updated, untouched}

-- The accounts of a list of ids stand at the positions from `position` on.
abbrev pub Placed : String → Tables → ℕ → List String → Type 0
Placed user_id t position [] = Unit
Placed user_id t position (id ∷ ids) =
    ((a : Account) × (row_of user_id id t ≡ some a) × (a.sort_order ≡ position))
    × Placed user_id t (suc position) ids

module _ {W : Type 0} (out : Outside W) (user_id : String) (stored : List Account) where
  -- What `place` has done when it succeeds: nothing, or one update.
  place-ok :
      (position : ℕ) (id : String) (s : State W) (a : Account)
      → lookup id stored ≡ some a
      → (place (wired out) stored position id s).0 ≡ ok tt
      → ((a.sort_order ≡ position) × ((place (wired out) stored position id s).1.tables ≡ s.tables))
        ⊎ (let b = record a { sort_order = position } in
            ((Accounts.update b (clock out s) s.tables).0 ≡ ok tt)
            × ((place (wired out) stored position id s).1.tables
                ≡ (Accounts.update b (clock out s) s.tables).1))
  unfolding place or_error
  place-ok position id s a l h = elim (Bool-cases (eqb a.sort_order position)) [
    | inl e ↦ inl ((eqb_iff a.sort_order position).0 e, ground arith)
    | inr e ↦
        let b = record a { sort_order = position } in
        elim (Result-cases (Accounts.update b (clock out s) s.tables).0) [
          | inr (f, u) ↦ absurd (ground arith)
          | inl (v, u) ↦ inr (ground arith, ground arith)
        ]
  ]

  placed :
      (position : ℕ) (id : String) (s : State W) (a : Account)
      → lookup id stored ≡ some a
      → a.user_id ≡ user_id
      → a.id ≡ id
      → row_of user_id id s.tables ≡ some a
      → (place (wired out) stored position id s).0 ≡ ok tt
      → ((b : Account) × (row_of user_id id (place (wired out) stored position id s).1.tables
            ≡ some b)
          × (b.sort_order ≡ position))
        × ((k : String)
            → (id == k) ≡ false
            → row_of user_id k (place (wired out) stored position id s).1.tables
              ≡ row_of user_id k s.tables)
  placed position id s a l u i r h = elim (place-ok position id s a l h) [
    | inl (p, e) ↦ ((a, ap (row_of user_id id) e ∙ r, p), λ k n. ap (row_of user_id k) e)
    | inr (done, e) ↦
        let b = record a { sort_order = position } in
        let now = clock out s in
        let own : Accounts.is_row a.user_id a.id a ≡ true =
          ground (arith, eq_refl a.user_id, eq_refl a.id) in
        (
          (
            Accounts.updated b now a,
            ap (row_of user_id id) e
                ∙ row_of-update user_id id b now s.tables done
                ∙ ap (changed (Accounts.is_row a.user_id a.id) (Accounts.updated b now)) r
                ∙ ap some (chosen _ (Accounts.updated b now a) a own),
            sort_updated b now a,
          ),
          λ k n.
              ap (row_of user_id k) e
              ∙ row_of-update user_id k b now s.tables done
              ∙ untouched b now user_id k s.tables (subst (λ x. (x == k) ≡ false) (sym i) n),
        )
  ]

  -- An account that is still as it was when the accounts were read.
  abbrev pub Unmoved : Tables → String → Type 0
  Unmoved t id =
      (a : Account) × (lookup id stored ≡ some a)
      × (a.user_id ≡ user_id)
      × (a.id ≡ id)
      × (row_of user_id id t ≡ some a)

  All-Unmoved :
      (id : String) (t t' : Tables) (ids : List String)
      → ((k : String) → (id == k) ≡ false → row_of user_id k t' ≡ row_of user_id k t)
      → All (λ z. (id == z) ≡ false) ids
      → All (Unmoved t) ids
      → All (Unmoved t') ids
  All-Unmoved id t t' [] same h k = tt
  All-Unmoved id t t' (z ∷ ids) same (p, h) ((a, l, u, i, r), k) =
      ((a, l, u, i, same z p ∙ r), All-Unmoved id t t' ids same h k)

  save_order-cons :
      (position : ℕ) (id : String) (ids : List String) (s : State W)
      → (place (wired out) stored position id s).0 ≡ ok tt
      → save_order (wired out) stored position (id ∷ ids) s
        ≡ save_order
            (wired out)
            stored
            (suc position)
            ids
            (place (wired out) stored position id s).1
  unfolding save_order
  save_order-cons position id ids s e = rw (save_order, e) refl

  save_order-head :
      (position : ℕ) (id : String) (ids : List String) (s : State W)
      → (save_order (wired out) stored position (id ∷ ids) s).0 ≡ ok tt
      → (place (wired out) stored position id s).0 ≡ ok tt
  unfolding save_order
  save_order-head position id ids s h =
      elim (Result-cases (place (wired out) stored position id s).0) [
        | inl (u, e) ↦ e
        | inr (f, e) ↦ absurd (ground arith)
      ]

  pub save_order-Placed :
      (position : ℕ) (ids : List String) (s : State W)
      → All (Unmoved s.tables) ids
      → NoRepeat ids
      → (save_order (wired out) stored position ids s).0 ≡ ok tt
      → Placed user_id (save_order (wired out) stored position ids s).1.tables position ids
        × ((k : String)
            → All (λ z. (z == k) ≡ false) ids
            → row_of user_id k (save_order (wired out) stored position ids s).1.tables
              ≡ row_of user_id k s.tables)
  unfolding save_order
  save_order-Placed position [] s m n h = (tt, λ k p. refl)
  save_order-Placed position (id ∷ ids) s ((a, l, u, i, r), m) (apart, n) h =
      let first = save_order-head position id ids s h in
      let next = (place (wired out) stored position id s).1 in
      let last = (save_order (wired out) stored (suc position) ids next).1 in
      let ((b, row, there), frame) = placed position id s a l u i r first in
      let cons = save_order-cons position id ids s first in
      let (rest, kept) =
        save_order-Placed (suc position) ids next
          (All-Unmoved id s.tables next.tables ids frame apart m) n
          (subst (λ x. x.0 ≡ ok tt) cons h) in
      subst
        (λ x.
          Placed user_id x.1.tables position (id ∷ ids)
          × ((k : String)
              → All (λ z. (z == k) ≡ false) (id ∷ ids)
              → row_of user_id k x.1.tables ≡ row_of user_id k s.tables))
        (sym cons)
        (((b, kept id (flipped id ids apart) ∙ row, there), rest), λ k p. kept k p.1 ∙ frame k p.0)
    where
      flipped :
          (id : String) (ids : List String)
          → All (λ z. (id == z) ≡ false) ids
          → All (λ z. (z == id) ≡ false) ids
      flipped id [] h = tt
      flipped id (z ∷ ids) (p, h) = (ground (arith, eq_iff id z, eq_iff z id), flipped id ids h)
