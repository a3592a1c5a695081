-- ===== src/Files/Service/FanOut/Slots.antt =====
-- internal/files/service.go, List: the slots after the goroutines have run in some order.
use mera_drive.Base.{
  ℕ, zero, suc, ◌<◌, ◌≡◌, inl, inr, refl, ap, ◌∙◌, Option, none, some, List, [], ◌∷◌, arith, length,
  get_elem?, set, Elem, Option-cases,
}
use mera_drive.Google.Query.{ListOptions}
use mera_drive.Google.Paths.{PathSegment}
use mera_drive.Store.{Account}
use mera_drive.Files.Service.{Accounts, DriveClient, ListRequest}
use mera_drive.Files.Service.FanOut.{
  Slice, Task, page, breadcrumbs, Fan, empty_slots, list_one, run_task, run_all,
}

-- Every slot has been written.
abbrev pub Filled : List (Option Slice) → Type 0
Filled [] = Unit
Filled (none ∷ slots) = ⊥
Filled (some s ∷ slots) = Filled slots

-- A slot that has been written, by its index.
abbrev Written : List (Option Slice) → ℕ → Type 0
Written slots i = (s : Slice) × (get_elem? slots i ≡ some (some s))

-- The schedule runs the goroutine of each of `n` accounts.
abbrev pub Covers : List Task → ℕ → Type 0
Covers schedule n = (i : ℕ) → i < n → Elem (page i) schedule

module _ {W : Type 0} (accounts : Accounts W) (drive : DriveClient W) (req : ListRequest)
    (opts : Account → ListOptions) where
  -- A result of the account's own goroutine, run in some world.
  abbrev pub Ran : Account → Slice → Type 0
  Ran a s = (w : W) × ((list_one accounts drive req.user_id (opts a) a w).0 ≡ s)

  -- Each slot is empty or holds a result of the account at its index.
  abbrev pub Aligned : List Account → List (Option Slice) → Type 0
  Aligned [] [] = Unit
  Aligned [] (_ ∷ _) = ⊥
  Aligned (_ ∷ _) [] = ⊥
  Aligned (_ ∷ targets) (none ∷ slots) = Aligned targets slots
  Aligned (a ∷ targets) (some s ∷ slots) = Ran a s × Aligned targets slots

  Aligned-empty_slots : (targets : List Account) → Aligned targets (empty_slots targets)
  Aligned-empty_slots [] = tt
  Aligned-empty_slots (a ∷ targets) = Aligned-empty_slots targets

  Aligned-set :
      (targets : List Account) (slots : List (Option Slice)) (i : ℕ) (a : Account) (s : Slice)
      → Aligned targets slots
      → get_elem? targets i ≡ some a
      → Ran a s
      → Aligned targets (set slots i (some s))
  Aligned-set [] [] i a s h g r = h
  Aligned-set [] (_ ∷ _) i a s h g r = absurd h
  Aligned-set (_ ∷ _) [] i a s h g r = absurd h
  Aligned-set (b ∷ targets) (none ∷ slots) zero a s h g r = let e : b ≡ a = cc in (rw e r, h)
  Aligned-set (b ∷ targets) (some t ∷ slots) zero a s (q, h) g r = let e : b ≡ a = cc in (rw e r, h)
  Aligned-set (b ∷ targets) (none ∷ slots) (suc i) a s h g r = Aligned-set targets slots i a s h g r
  Aligned-set (b ∷ targets) (some t ∷ slots) (suc i) a s (q, h) g r =
      (q, Aligned-set targets slots i a s h g r)

  slots-breadcrumbs :
      (a : Account) (targets : List Account) (fan : Fan W)
      → (run_task accounts drive req opts (a ∷ targets) fan breadcrumbs).slots ≡ fan.slots
  unfolding run_task
  slots-breadcrumbs a targets fan = ground arith

  slots-page-none :
      (targets : List Account) (fan : Fan W) (i : ℕ)
      → get_elem? targets i ≡ none
      → (run_task accounts drive req opts targets fan (page i)).slots ≡ fan.slots
  unfolding run_task
  slots-page-none targets fan i e = ground arith

  slots-page-some :
      (targets : List Account) (fan : Fan W) (i : ℕ) (a : Account)
      → get_elem? targets i ≡ some a
      → (run_task accounts drive req opts targets fan (page i)).slots
        ≡ set fan.slots i (some (list_one accounts drive req.user_id (opts a) a fan.world).0)
  unfolding run_task
  slots-page-some targets fan i a e = ground arith

  run_task-Aligned :
      (targets : List Account) (fan : Fan W) (t : Task)
      → Aligned targets fan.slots
      → Aligned targets (run_task accounts drive req opts targets fan t).slots
  run_task-Aligned targets fan (page i) h = elim (Option-cases (get_elem? targets i)) [
    | inl e ↦ rw (slots-page-none targets fan i e) h
    | inr (a, e) ↦
        rw (slots-page-some targets fan i a e)
          (Aligned-set targets fan.slots i a _ h e (fan.world, refl))
  ]
  run_task-Aligned [] fan breadcrumbs h = unfold run_task in h
  run_task-Aligned (a ∷ targets) fan breadcrumbs h = rw (slots-breadcrumbs a targets fan) h

  run_all-Aligned :
      (targets : List Account) (tasks : List Task) (fan : Fan W)
      → Aligned targets fan.slots
      → Aligned targets (run_all accounts drive req opts targets tasks fan).slots
  unfolding run_all
  run_all-Aligned targets [] fan h = h
  run_all-Aligned targets (t ∷ tasks) fan h =
      run_all-Aligned targets tasks _ (run_task-Aligned targets fan t h)

  Written-set_self :
      (slots : List (Option Slice)) (i : ℕ) (s : Slice)
      → i < length slots
      → Written (set slots i (some s)) i
  Written-set_self [] i s h = elim h [ ]
  Written-set_self (x ∷ slots) zero s h = (s, refl)
  Written-set_self (x ∷ slots) (suc i) s h = Written-set_self slots i s (omega arith)

  Written-set :
      (slots : List (Option Slice)) (i j : ℕ) (s : Slice)
      → Written slots j
      → Written (set slots i (some s)) j
  Written-set [] i j s (t, h) = absurd (ground arith)
  Written-set (x ∷ slots) zero zero s h = (s, refl)
  Written-set (x ∷ slots) zero (suc j) s h = h
  Written-set (x ∷ slots) (suc i) zero s h = h
  Written-set (x ∷ slots) (suc i) (suc j) s h = Written-set slots i j s h

  -- A task keeps what was written, and writes its own slot.
  run_task-Written :
      (targets : List Account) (fan : Fan W) (t : Task) (j : ℕ)
      → Written fan.slots j
      → Written (run_task accounts drive req opts targets fan t).slots j
  run_task-Written targets fan (page i) j h = elim (Option-cases (get_elem? targets i)) [
    | inl e ↦ rw (slots-page-none targets fan i e) h
    | inr (a, e) ↦ rw (slots-page-some targets fan i a e) (Written-set fan.slots i j _ h)
  ]
  run_task-Written [] fan breadcrumbs j h = unfold run_task in h
  run_task-Written (a ∷ targets) fan breadcrumbs j h = rw (slots-breadcrumbs a targets fan) h

  run_task-writes :
      (targets : List Account) (fan : Fan W) (i : ℕ) (a : Account)
      → get_elem? targets i ≡ some a
      → i < length fan.slots
      → Written (run_task accounts drive req opts targets fan (page i)).slots i
  run_task-writes targets fan i a e h =
      rw (slots-page-some targets fan i a e) (Written-set_self fan.slots i _ h)

  length-set :
      (slots : List (Option Slice)) (i : ℕ) (s : Option Slice)
      → length (set slots i s) ≡ length slots
  length-set [] i s = refl
  length-set (x ∷ slots) zero s = refl
  length-set (x ∷ slots) (suc i) s = ap suc (length-set slots i s)

  length-run_task :
      (targets : List Account) (fan : Fan W) (t : Task)
      → length (run_task accounts drive req opts targets fan t).slots ≡ length fan.slots
  length-run_task targets fan (page i) = elim (Option-cases (get_elem? targets i)) [
    | inl e ↦ rw (slots-page-none targets fan i e)
    | inr (a, e) ↦ rw (slots-page-some targets fan i a e) (length-set fan.slots i _)
  ]
  length-run_task [] fan breadcrumbs = unfold run_task in refl
  length-run_task (a ∷ targets) fan breadcrumbs = rw (slots-breadcrumbs a targets fan)

  run_all-Written :
      (targets : List Account) (tasks : List Task) (fan : Fan W) (j : ℕ)
      → Written fan.slots j
      → Written (run_all accounts drive req opts targets tasks fan).slots j
  unfolding run_all
  run_all-Written targets [] fan j h = h
  run_all-Written targets (t ∷ tasks) fan j h =
      run_all-Written targets tasks _ j (run_task-Written targets fan t j h)

  run_all-writes :
      (targets : List Account) (tasks : List Task) (fan : Fan W) (i : ℕ) (a : Account)
      → get_elem? targets i ≡ some a
      → i < length fan.slots
      → Elem (page i) tasks
      → Written (run_all accounts drive req opts targets tasks fan).slots i
  unfolding run_all
  run_all-writes targets [] fan i a e h m = absurd m
  run_all-writes targets (t ∷ tasks) fan i a e h (inl q) =
      run_all-Written targets tasks _ i (rw q (run_task-writes targets fan i a e h))
  run_all-writes targets (t ∷ tasks) fan i a e h (inr m) =
      run_all-writes targets tasks _ i a e (rw (length-run_task targets fan t) h) m

  Filled-of_Written :
      (slots : List (Option Slice)) → ((i : ℕ) → i < length slots → Written slots i) → Filled slots
  Filled-of_Written [] h = tt
  Filled-of_Written (none ∷ slots) h = let (s, e) = h 0 (omega arith) in cc e
  Filled-of_Written (some s ∷ slots) h = Filled-of_Written slots (λ i k. h (suc i) (omega arith))

  get_elem?-of_lt :
      (targets : List Account) (i : ℕ)
      → i < length targets
      → (a : Account) × (get_elem? targets i ≡ some a)
  get_elem?-of_lt [] i h = elim h [ ]
  get_elem?-of_lt (a ∷ targets) zero h = (a, refl)
  get_elem?-of_lt (a ∷ targets) (suc i) h = get_elem?-of_lt targets i (omega arith)

  length-empty_slots : (targets : List Account) → length (empty_slots targets) ≡ length targets
  length-empty_slots [] = refl
  length-empty_slots (a ∷ targets) = ap suc (length-empty_slots targets)

  length-run_all :
      (targets : List Account) (tasks : List Task) (fan : Fan W)
      → length (run_all accounts drive req opts targets tasks fan).slots ≡ length fan.slots
  unfolding run_all
  length-run_all targets [] fan = refl
  length-run_all targets (t ∷ tasks) fan =
      length-run_all targets tasks _ ∙ length-run_task targets fan t

  module _ (targets : List Account) (tasks : List Task) (path : List PathSegment) (w : W) where
    abbrev pub after : Fan W
    after =
        run_all accounts drive req opts targets tasks
          (record { slots = empty_slots targets; path = path; world = w })

    pub after-Aligned : Aligned targets after.slots
    after-Aligned = run_all-Aligned targets tasks _ (Aligned-empty_slots targets)

    pub after-Filled : Covers tasks (length targets) → Filled after.slots
    after-Filled c = Filled-of_Written after.slots λ i h.
        let k : i < length targets = omega (
          arith,
          length-run_all targets tasks
              (record { slots = empty_slots targets; path = path; world = w }),
          length-empty_slots targets,
        ) in
        let (a, e) = get_elem?-of_lt targets i k in
        run_all-writes targets tasks _ i a e (omega (arith, length-empty_slots targets)) (c i k)
