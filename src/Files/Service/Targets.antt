-- ===== src/Files/Service/Targets.antt =====
-- internal/files/service.go, targets, perAccountPageSize and clampPageSize: whom a listing asks,
-- and for how much.
use mera_drive.Base.{
  ℕ, ◌/◌, ◌*◌, ◌≤◌, true, ◌≡◌, ◌≢◌, ◌⊎◌, none, List, [], ◌∷◌, arith, eq_iff, length, take, select,
  All, All-of_Elem, Elem, Elem-select, Elem-take, length-take-le,
}
use mathlib.Core.Path.{subst}
use native.Mathlib.Nat.{mul-div-le, div-le_self}
use mera_drive.Base.Int.{ℤ}
use mera_drive.Base.Result.{ok}
use mera_drive.Store.{Account}
use mera_drive.Files.Cursor.{Cursor, find_token}
use mera_drive.Files.Service.{
  ListRequest, is_target, targets_of, clamp_page_size, per_account_page_size,
}

-- What an account has to be for a request to reach it.
pub record Reachable (req : ListRequest) (resume : Cursor) (connected : List Account) (a : Account)
    : Type 0 where
  pub listed : Elem a connected
  pub requested : (req.account_id ≡ "") ⊎ (a.id ≡ req.account_id)
  pub resumed : (resume ≡ []) ⊎ (find_token a.id resume ≢ none)

is_target-Reachable :
    (req : ListRequest) (resume : Cursor) (a : Account)
    → is_target req resume a ≡ true
    → ((req.account_id ≡ "") ⊎ (a.id ≡ req.account_id))
      × ((resume ≡ []) ⊎ (find_token a.id resume ≢ none))
unfolding is_target
is_target-Reachable req [] a h =
    ground (arith, eq_iff req.account_id "", eq_iff a.id req.account_id)
is_target-Reachable req (e ∷ resume) a h =
    ground (arith, eq_iff req.account_id "", eq_iff a.id req.account_id)

targets_of-eq :
    (req : ListRequest) (resume : Cursor) (connected targets : List Account)
    → targets_of req resume connected ≡ ok targets
    → targets ≡ take 50 (select (is_target req resume) connected)
unfolding targets_of
targets_of-eq req resume connected targets h = ground arith

-- A listing asks at most fifty accounts. Each is connected, is the one that was asked for if one
-- was, and has a token in the cursor if there is one.
pub targets_of-Reachable :
    (req : ListRequest) (resume : Cursor) (connected targets : List Account)
    → targets_of req resume connected ≡ ok targets
    → (length targets ≤ 50) × All (Reachable req resume connected) targets
targets_of-Reachable req resume connected targets h =
    let e = targets_of-eq req resume connected targets h in
    let chosen : List Account = select (is_target req resume) connected in
    (
      rw e (length-take-le 50 chosen),
      All-of_Elem _ targets λ a m.
          let (listed, passed) =
            (Elem-select (is_target req resume) connected a).0
              (Elem-take 50 chosen a (subst (Elem a) e m)) in
          let (requested, resumed) = is_target-Reachable req resume a passed in
          record { listed = listed; requested = requested; resumed = resumed },
    )

clamp_page_size_bounds :
    (requested : ℤ) → (1 ≤ clamp_page_size requested) × (clamp_page_size requested ≤ 500)
unfolding clamp_page_size
clamp_page_size_bounds requested = ground arith

slice_bounds :
    (page accounts : ℕ)
    → 1 ≤ page
    → page ≤ 500
    → 1 ≤ accounts
    → let slice = per_account_page_size page accounts in
      (1 ≤ slice) × (slice ≤ 500) × ((slice ≡ 10) ⊎ (accounts * slice ≤ page))
unfolding per_account_page_size
slice_bounds page accounts h k l =
    let spread : accounts * (page / accounts) ≤ page = mul-div-le page accounts in
    ground (arith, spread, div-le_self page accounts)

-- Whatever a client asks for, every account is asked for at least one file and at most 500, and the
-- slices together stay within the page unless each is the smallest one of ten.
pub per_account_page_size_bounds :
    (requested : ℤ) (accounts : ℕ)
    → 1 ≤ accounts
    → let page = clamp_page_size requested in
      let slice = per_account_page_size page accounts in
      (1 ≤ slice) × (slice ≤ 500) × ((slice ≡ 10) ⊎ (accounts * slice ≤ page))
per_account_page_size_bounds requested accounts h =
    let (low, high) = clamp_page_size_bounds requested in
    slice_bounds (clamp_page_size requested) accounts low high h
