-- ===== src/Accounts/Listing.antt =====
-- internal/accounts/service.go, List: each account with its storage quota. The goroutines run one
-- after the other in an order that the caller gives; each writes its own view and failure.
use mera_drive.Base.{
  ℕ, zero, suc, String, ◌≡◌, inl, inr, refl, arith, Option, none, some, List, [], ◌∷◌, get_elem?,
  set, map, if◌then◌else◌, Bool-cases, Option-cases,
}
use mera_drive.Base.Result.{Result, ok, err, Act, Result-cases}
use mera_drive.Base.Act.{◌>>=◌}
use mera_drive.Apperr.{Error, Message, Fault, tagged, compact, is_reauth_required}
use mera_drive.Store.{Scope, AccountStatus, Account, is_disconnected}
use mera_drive.Accounts.{StorageQuota, Deps, or_error, internal_error, fetch_quota, note_failure}

-- `View`; the status reason is a message of the error.
pub record View : Type 0 where
  pub id : String
  pub email : String
  pub name : String
  pub avatar_url : String
  pub scope : Scope
  pub status : AccountStatus
  pub connected_at : ℕ
  pub last_used_at : Option ℕ
  pub quota : Option StorageQuota
  pub status_reason : Option Message

unfoldable pub new_view : Account → View
new_view a = record {
  id = a.id;
  email = a.email;
  name = a.name;
  avatar_url = a.avatar_url;
  scope = a.scope;
  status = a.status;
  connected_at = a.connected_at;
  last_used_at = a.last_used_at;
  quota = none;
  status_reason = none;
}

-- `applyFailure`, on the view.
unfoldable pub failed : Error → View → View
failed failure v = record v {
  status = if is_reauth_required failure.code then AccountStatus.reauth_required else v.status;
  status_reason = some failure.message;
}

-- The slices that the goroutines share, and the world.
pub record Round (W : Type 0) : Type 0 where
  pub views : List View
  pub failures : List (Option Error)
  pub world : W

abbrev pub no_failures : List Account → List (Option Error)
no_failures [] = []
no_failures (_ ∷ stored) = none ∷ no_failures stored

-- A write to views[i] through its pointer.
unfoldable pub set_view : List View → ℕ → (View → View) → List View
set_view views i f = elim (get_elem? views i) [ none ↦ views | some v ↦ set views i (f v) ]

module _ {W : Type 0} (deps : Deps W) where
  -- The goroutine of an account that is not disconnected.
  unfoldable pub measure : ℕ → Account → Round W → Round W
  unfolding fetch_quota failed set_view note_failure
  measure i account r =
      let (reply, w) = fetch_quota deps account r.world in
      elim reply [
        | ok quota ↦ record {
          views = set_view r.views i (λ v. record v { quota = some quota });
          failures = r.failures;
          world = w;
        }
        | err f ↦ record {
          views = set_view r.views i (failed (tagged f account.id));
          failures = set r.failures i (some (tagged f account.id));
          world = note_failure deps account (tagged f account.id) w;
        }
      ]

  unfoldable pub visit : List Account → Round W → ℕ → Round W
  unfolding measure
  visit stored r i = elim (get_elem? stored i) [
    | none ↦ r
    | some account ↦ if is_disconnected account.status then r else measure i account r
  ]

  unfoldable pub visit_all : List Account → List ℕ → Round W → Round W
  unfolding visit
  visit_all stored [] r = r
  visit_all stored (i ∷ schedule) r = visit_all stored schedule (visit stored r i)

  unfoldable pub list : List ℕ → String → Act W Fault (List View × List Error)
  unfolding visit_all new_view
  list schedule user_id = do
    stored ←
        or_error (internal_error "Could not read your connected accounts.")
          (deps.list_accounts user_id)
    λ w.
        let r =
          visit_all stored schedule
            (record { views = map new_view stored; failures = no_failures stored; world = w }) in
        (ok (r.views, compact r.failures), r.world)

abbrev pub ids : List View → List String
ids = map (λ v. v.id)

ids-set :
    (views : List View) (i : ℕ) (v u : View)
    → get_elem? views i ≡ some v
    → u.id ≡ v.id
    → ids (set views i u) ≡ ids views
ids-set [] i v u h k = refl
ids-set (x ∷ views) zero v u h k = ground arith
ids-set (x ∷ views) (suc i) v u h k = ground (arith, ids-set views i v u)

ids-set_view :
    (views : List View) (i : ℕ) (f : View → View)
    → ((v : View) → (f v).id ≡ v.id)
    → ids (set_view views i f) ≡ ids views
unfolding set_view
ids-set_view views i f k = elim (Option-cases (get_elem? views i)) [
  | inl e ↦ ground arith
  | inr (v, e) ↦ ground (arith, ids-set views i v (f v) e (k v))
]

failed_id : (e : Error) (v : View) → (failed e v).id ≡ v.id
unfolding failed
failed_id e v = refl

module _ {W : Type 0} (deps : Deps W) where
  ids-visit :
      (stored : List Account) (r : Round W) (i : ℕ)
      → ids (visit deps stored r i).views ≡ ids r.views
  unfolding visit measure
  ids-visit stored r i = elim (Option-cases (get_elem? stored i)) [
    | inl e ↦ ground arith
    | inr (a, e) ↦ elim (Bool-cases (is_disconnected a.status)) [
      | inl d ↦ ground arith
      | inr d ↦ elim (Result-cases (fetch_quota deps a r.world).0) [
        | inl (q, g) ↦
            ground (arith, ids-set_view r.views i (λ v. record v { quota = some q }) (λ v. refl))
        | inr (f, g) ↦
            ground
              (arith, ids-set_view r.views i (failed (tagged f a.id)) (failed_id (tagged f a.id)))
      ]
    ]
  ]

  ids-visit_all :
      (stored : List Account) (schedule : List ℕ) (r : Round W)
      → ids (visit_all deps stored schedule r).views ≡ ids r.views
  unfolding visit_all
  ids-visit_all stored [] r = refl
  ids-visit_all stored (i ∷ schedule) r =
      rw (ids-visit_all stored schedule (visit deps stored r i), ids-visit stored r i) refl

ids-new_view : (stored : List Account) → ids (map new_view stored) ≡ map (λ a. a.id) stored
unfolding new_view
ids-new_view [] = refl
ids-new_view (a ∷ stored) = ground (arith, ids-new_view stored)

-- A result whose views show these accounts, in this order.
abbrev pub ShowsAll : List Account → Result Fault (List View × List Error) → Type 0
ShowsAll stored (ok (views, failures)) = ids views ≡ map (λ a. a.id) stored
ShowsAll stored (err f) = ⊥

-- When the store lists the user's accounts, the listing succeeds and shows each of them, in the
-- store's order, whatever the calls to Google return and in whatever order the goroutines run.
pub list-ShowsAll :
    {W : Type 0} (deps : Deps W) (schedule : List ℕ) (user_id : String) (w : W)
    (stored : List Account)
    → (deps.list_accounts user_id w).0 ≡ ok stored
    → ShowsAll stored (list deps schedule user_id w).0
unfolding list or_error
list-ShowsAll {W = W} deps schedule user_id w stored h =
    let start : Round W = record {
      views = map new_view stored;
      failures = no_failures stored;
      world = (deps.list_accounts user_id w).1;
    } in
    ground (arith, ids-visit_all deps stored schedule start, ids-new_view stored)
