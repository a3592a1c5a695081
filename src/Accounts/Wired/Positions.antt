-- ===== src/Accounts/Wired/Positions.antt =====
-- internal/accounts/service.go, Reorder over internal/store/sqlite: the positions that a saved
-- order leaves.
use mathlib.Core.Path.{subst}
use mera_drive.Base.{
  String, true, ◌≡◌, sym, inl, inr, refl, arith, eq_iff, List, ◌==◌, select, All, Elem, Elem-select,
  All-of_Elem, Elem-of_All,
}
use mera_drive.Base.Result.{ok, err, Result-cases}
use mera_drive.Base.Sorting.{sort_stable, All-sort_stable}
use mera_drive.Store.{Account}
use mera_drive.Sqlite.Tables.{Tables}
use mera_drive.Sqlite.Accounts
use mera_drive.Sqlite.Invariant.{IsSound}
use mera_drive.Apperr.{Fault}
use mera_drive.Accounts.{or_error}
use mera_drive.Accounts.Order.{check_order, save_order, reorder, ids_of, check_order-Known}
use mera_drive.Accounts.Wired.{State, Outside, wired}
use mera_drive.Accounts.Wired.Rows.{find_first-Distinct, lookup-some, known-lookup}
use mera_drive.Accounts.Wired.SavedOrder.{Placed, Unmoved, save_order-Placed}

module _ {W : Type 0} (out : Outside W) (user_id : String) where
  abbrev stored_of : Tables → List Account
  stored_of t = sort_stable Accounts.before (select (λ a. a.user_id == user_id) t.accounts)

  stored-Own :
      (t : Tables) (a : Account)
      → Elem a (stored_of t)
      → Elem a t.accounts × ((a.user_id == user_id) ≡ true)
  stored-Own t a m =
      let own : Account → Type 0 = λ x. Elem x t.accounts × ((x.user_id == user_id) ≡ true) in
      let rows = select (λ (x : Account). x.user_id == user_id) t.accounts in
      let all : All own rows =
        All-of_Elem own rows
          (λ x. (Elem-select (λ (y : Account). y.user_id == user_id) t.accounts x).0) in
      Elem-of_All own (stored_of t) a (All-sort_stable Accounts.before own rows all) m

  known-Unmoved :
      (t : Tables) (id : String)
      → IsSound t
      → Elem id (ids_of (stored_of t))
      → Unmoved out user_id (stored_of t) t id
  known-Unmoved t id sound m =
      let (a, l) = known-lookup id (stored_of t) m in
      let (there, i) = lookup-some id (stored_of t) a l in
      let (row, own) = stored-Own t a there in
      (
        a,
        l,
        (eq_iff a.user_id user_id).0 own,
        i,
        find_first-Distinct (Accounts.is_row user_id id) t.accounts a sound.account_ids
            (λ y h. ground (arith, eq_iff y.id id)) row (ground (arith, eq_iff a.id id)),
      )

  reorder-saved :
      (ordered_ids : List String) (s : State W)
      → check_order (stored_of s.tables) ordered_ids ≡ ok tt
      → reorder (wired out) user_id ordered_ids s
        ≡ save_order (wired out) (stored_of s.tables) 0 ordered_ids s
  unfolding reorder or_error Accounts.list
  reorder-saved ordered_ids s e = rw e refl

  reorder_refused :
      (ordered_ids : List String) (s : State W) (f : Fault)
      → check_order (stored_of s.tables) ordered_ids ≡ err f
      → (reorder (wired out) user_id ordered_ids s).0 ≡ err f
  unfolding reorder or_error Accounts.list
  reorder_refused ordered_ids s f e = rw e refl

  -- After a saved order, of a user over tables that keep the schema, each account that the order
  -- lists stands at the position that it has there: the first one at 0, the next one at 1, and so
  -- on.
  pub reorder-Placed :
      (ordered_ids : List String) (s : State W)
      → IsSound s.tables
      → (reorder (wired out) user_id ordered_ids s).0 ≡ ok tt
      → Placed user_id (reorder (wired out) user_id ordered_ids s).1.tables 0 ordered_ids
  reorder-Placed ordered_ids s sound h =
      let stored = stored_of s.tables in
      elim (Result-cases (check_order stored ordered_ids)) [
        | inr (f, e) ↦ absurd (ground (arith, reorder_refused ordered_ids s f e))
        | inl (u, e) ↦
            let same = reorder-saved ordered_ids s e in
            let (distinct, known) = check_order-Known stored ordered_ids e in
            let unmoved =
              All-of_Elem (Unmoved out user_id stored s.tables) ordered_ids
                (λ id m. known-Unmoved s.tables id sound (Elem-of_All _ ordered_ids id known m)) in
            subst (λ r. Placed user_id r.1.tables 0 ordered_ids) (sym same)
              (save_order-Placed out user_id stored 0 ordered_ids s unmoved distinct
                (subst (λ r. r.0 ≡ ok tt) same h)).0
      ]
