-- ===== src/Files/Service/FanOut/Isolation.antt =====
-- internal/files/service.go, List: what a listing holds of each account, and from which accounts it
-- comes.
use mera_drive.Base.{
  String, ◌≡◌, ◌⊎◌, inl, inr, refl, sym, Option, none, some, List, [], ◌∷◌, map, arith, length, All,
  Elem, All-append, All-of_Elem, Elem-of_All, Elem-append_left, Elem-append_right,
}
use mathlib.Core.Path.{subst}
use mera_drive.Base.Result.{ok, err, Result-cases}
use mera_drive.Base.Sorting.{All-sort_stable, Elem-sort_stable}
use mera_drive.Apperr.{Error, compact}
use mera_drive.Google.Query.{ListOptions}
use mera_drive.Store.{Account}
use mera_drive.Files.Cursor.{Cursor, Codec, decode_cursor}
use mera_drive.Files.Sort.{less, sort_files}
use mera_drive.Files.View.{FileView}
use mera_drive.Files.Service.{Accounts, DriveClient, ListRequest, Listing, targets_of, merge}
use mera_drive.Files.Service.Targets.{Reachable, targets_of-Reachable}
use mera_drive.Files.Service.FanOut.{
  Slice, Task, page_of, failure_of, sort_of, options, assemble, list_targets, list,
}
use mera_drive.Files.Service.FanOut.Stamps.{Stamped, list_one-Stamped}
use mera_drive.Files.Service.FanOut.Slots.{
  Filled, Covers, Ran, Aligned, after, after-Aligned, after-Filled,
}

-- What carries the id of an account of a list.
abbrev pub From : List Account → String → Type 0
From targets id = (a : Account) × Elem a targets × (a.id ≡ id)

module _ {W : Type 0} (accounts : Accounts W) (drive : DriveClient W) (req : ListRequest)
    (opts : Account → ListOptions) where
  -- The account's own goroutine, run in some world, either had its whole page listed or had its
  -- failure reported.
  abbrev pub Settled : List FileView → List Error → Account → Type 0
  Settled files failures a =
      ((views : List FileView) × (token : String) × Ran accounts drive req opts a
          (ok (views, token))
        × All (λ v. Elem v files) views)
      ⊎ ((e : Error) × Ran accounts drive req opts a (err e) × Elem e failures)

  settle :
      (files : List FileView) (failures : List Error) (targets : List Account)
      (slots : List (Option Slice))
      → Aligned accounts drive req opts targets slots
      → Filled slots
      → ((v : FileView) → Elem v (merge (map page_of slots)) → Elem v files)
      → ((e : Error) → Elem e (compact (map failure_of slots)) → Elem e failures)
      → All (Settled files failures) targets
  unfolding merge compact
  settle files failures [] slots h k p q = tt
  settle files failures (a ∷ targets) [] h k p q = absurd h
  settle files failures (a ∷ targets) (none ∷ slots) h k p q = absurd k
  settle files failures (a ∷ targets) (some (ok (views, token)) ∷ slots) (r, h) k p q = (
    inl (views, token, r, All-of_Elem _ views (λ v m. p v (Elem-append_left v views _ m))),
    settle files failures targets slots h k (λ v m. p v (Elem-append_right v views _ m)) q,
  )
  settle files failures (a ∷ targets) (some (err e) ∷ slots) (r, h) k p q =
      (inr (e, r, q e (inl refl)), settle files failures targets slots h k p (λ x m. q x (inr m)))

  stamped_views :
      (all targets : List Account) (slots : List (Option Slice))
      → ((a : Account) → Elem a targets → Elem a all)
      → Aligned accounts drive req opts targets slots
      → All (λ v. From all v.account_id) (merge (map page_of slots))
        × All (λ e. From all e.account_id) (compact (map failure_of slots))
  unfolding merge compact
  stamped_views all [] [] k h = (tt, tt)
  stamped_views all [] (_ ∷ _) k h = absurd h
  stamped_views all (a ∷ targets) [] k h = absurd h
  stamped_views all (a ∷ targets) (none ∷ slots) k h =
      stamped_views all targets slots (λ b m. k b (inr m)) h
  stamped_views all (a ∷ targets) (some (ok (views, token)) ∷ slots) k ((w, r), h) =
      let (vs, es) = stamped_views all targets slots (λ b m. k b (inr m)) h in
      let own : All (λ v. v.account_id ≡ a.id) views =
        subst (Stamped a) r (list_one-Stamped accounts drive req.user_id (opts a) a w) in
      (
        All-append _ views _
            (All-of_Elem _ views (λ v m. (a, k a (inl refl), sym (Elem-of_All _ views v own m))))
            vs,
        es,
      )
  stamped_views all (a ∷ targets) (some (err e) ∷ slots) k ((w, r), h) =
      let (vs, es) = stamped_views all targets slots (λ b m. k b (inr m)) h in
      let own : e.account_id ≡ a.id =
        subst (Stamped a) r (list_one-Stamped accounts drive req.user_id (opts a) a w) in
      (vs, ((a, k a (inl refl), sym own), es))

-- The steps of a listing that succeeded, from the cursor to the accounts that were asked.
pub record Steps {W : Type 0} (accounts : Accounts W) (drive : DriveClient W)
    (lower : String → String) (codec : Codec) (schedule : List Task) (req : ListRequest) (w : W)
    (listing : Listing) : Type 0 where
  pub resume : Cursor
  pub connected : List Account
  pub targets : List Account
  pub world : W
  pub decoded : decode_cursor codec req.page ≡ ok resume
  pub known : (accounts.connected req.user_id w).0 ≡ ok connected
  pub chosen : targets_of req resume connected ≡ ok targets
  pub result :
      (list_targets accounts drive lower codec schedule req resume targets world).0 ≡ listing

module _ {W : Type 0} (accounts : Accounts W) (drive : DriveClient W) (lower : String → String)
    (codec : Codec) (schedule : List Task) (req : ListRequest) (resume : Cursor) where
  -- A listing of some targets is the assembled slots, or empty.
  targets-Settled :
      (targets : List Account) (w : W)
      → Covers schedule (length targets)
      → let listing = (list_targets accounts drive lower codec schedule req resume targets w).0 in
        All
          (Settled accounts drive req (options req resume targets) listing.files listing.failures)
          targets
  unfolding list_targets assemble
  targets-Settled [] w c = tt
  targets-Settled (a ∷ more) w c =
      let targets : List Account = a ∷ more in
      let opts = options req resume targets in
      settle accounts drive req opts _ _ targets
        (after accounts drive req opts targets schedule [] w).slots
        (after-Aligned accounts drive req opts targets schedule [] w)
        (after-Filled accounts drive req opts targets schedule [] w c)
        (λ v m. unfold sort_files in Elem-sort_stable (less lower (sort_of req)) v _ m) (λ e m. m)

  targets_stamped :
      (targets : List Account) (w : W)
      → let listing = (list_targets accounts drive lower codec schedule req resume targets w).0 in
        All (λ v. From targets v.account_id) listing.files
        × All (λ e. From targets e.account_id) listing.failures
  unfolding list_targets assemble
  targets_stamped [] w = (tt, tt)
  targets_stamped (a ∷ more) w =
      let targets : List Account = a ∷ more in
      let opts = options req resume targets in
      let (vs, es) =
        stamped_views accounts drive req opts targets targets
          (after accounts drive req opts targets schedule [] w).slots (λ b m. m)
          (after-Aligned accounts drive req opts targets schedule [] w) in
      (unfold sort_files in All-sort_stable (less lower (sort_of req)) _ _ vs, es)

module _ {W : Type 0} (accounts : Accounts W) (drive : DriveClient W) (lower : String → String)
    (codec : Codec) (schedule : List Task) (req : ListRequest) (w : W) (listing : Listing) where
  list-Steps :
      (list accounts drive lower codec schedule req w).0 ≡ ok listing
      → Steps accounts drive lower codec schedule req w listing
  unfolding list
  list-Steps h = elim (Result-cases (decode_cursor codec req.page)) [
    | inr (f, e) ↦ absurd (ground arith)
    | inl (resume, e) ↦ elim (Result-cases (accounts.connected req.user_id w).0) [
      | inr (f, k) ↦ absurd (ground arith)
      | inl (connected, k) ↦ elim (Result-cases (targets_of req resume connected)) [
        | inr (f, t) ↦ absurd (ground arith)
        | inl (targets, t) ↦ record {
          resume = resume;
          connected = connected;
          targets = targets;
          world = (accounts.connected req.user_id w).1;
          decoded = e;
          known = k;
          chosen = t;
          result = ground arith;
        }
      ]
    ]
  ]

-- When a listing succeeds and its schedule has a page for each of the first fifty targets, every
-- account that was asked had a goroutine whose result is in the listing: either all files of the
-- page that it read are among the listing's files, or its failure is among the listing's failures.
-- The schedule may be in any order.
pub list-Settled :
    {W : Type 0} (accounts : Accounts W) (drive : DriveClient W) (lower : String → String)
    (codec : Codec) (schedule : List Task) (req : ListRequest) (w : W) (listing : Listing)
    → Covers schedule 50
    → (list accounts drive lower codec schedule req w).0 ≡ ok listing
    → (s : Steps accounts drive lower codec schedule req w listing) × All
        (Settled accounts drive req (options req s.resume s.targets) listing.files listing.failures)
        s.targets
list-Settled accounts drive lower codec schedule req w listing covers h =
    let s = list-Steps accounts drive lower codec schedule req w listing h in
    let (few, _) = targets_of-Reachable req s.resume s.connected s.targets s.chosen in
    let opts = options req s.resume s.targets in
    (
      s,
      subst (λ (l : Listing). All (Settled accounts drive req opts l.files l.failures) s.targets)
          s.result
          (targets-Settled accounts drive lower codec schedule req s.resume s.targets s.world
            (λ i k. covers i (omega arith))),
    )

-- When a listing succeeds, every account that it asked is connected, is the requested one if one
-- was requested, and is in the cursor if there is one; and every file and every failure of the
-- listing carries the id of an account that it asked.
pub list-Reachable :
    {W : Type 0} (accounts : Accounts W) (drive : DriveClient W) (lower : String → String)
    (codec : Codec) (schedule : List Task) (req : ListRequest) (w : W) (listing : Listing)
    → (list accounts drive lower codec schedule req w).0 ≡ ok listing
    → (s : Steps accounts drive lower codec schedule req w listing) × All
        (Reachable req s.resume s.connected)
        s.targets
      × All (λ v. From s.targets v.account_id) listing.files
      × All (λ e. From s.targets e.account_id) listing.failures
list-Reachable accounts drive lower codec schedule req w listing h =
    let s = list-Steps accounts drive lower codec schedule req w listing h in
    let (vs, es) =
      targets_stamped accounts drive lower codec schedule req s.resume s.targets s.world in
    (
      s,
      (targets_of-Reachable req s.resume s.connected s.targets s.chosen).1,
      subst (λ (l : Listing). All (λ v. From s.targets v.account_id) l.files) s.result vs,
      subst (λ (l : Listing). All (λ e. From s.targets e.account_id) l.failures) s.result es,
    )
