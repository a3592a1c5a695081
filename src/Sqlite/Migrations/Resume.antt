-- ===== src/Sqlite/Migrations/Resume.antt =====
-- internal/store/sqlite/sqlite.go, Migrate: what a later start makes of an interrupted one.
use mathlib.Core.Path.{subst, sym}
use mera_drive.Base.{
  String, Bool, true, ◌||◌, ◌≡◌, inl, inr, refl, arith, none, some, List, [], ◌∷◌, ◌++◌, ◌==◌, any,
  eq_refl, All, Option-cases, Bool-cases,
}
use mera_drive.Base.Result.{ok, err, Result-cases}
use mera_drive.Apperr.{Failure}
use mera_drive.Sqlite.Migrations.{
  Database, Scripts, Faults, is_applied, migration_names, apply_migration, apply_name, apply_all,
  migrate,
}

-- A database whose own steps do not fail.
abbrev pub healthy : {S : Type 0} → Faults S
healthy = record {
  create = λ d. none;
  query = λ name d. none;
  begin = λ name d. none;
  insert = λ name d. none;
  commit = λ name d. none;
}

any-append : (p : String → Bool) (xs ys : List String) → any p (xs ++ ys) ≡ (any p xs || any p ys)
any-append p [] ys = refl
any-append p (x ∷ xs) ys = ground (arith, any-append p xs ys)

module _ {S : Type 0} (scripts : Scripts S) where
  apply_all-ok :
      (faults : Faults S) (name : String) (names : List String) (d d' : Database S)
      → apply_name scripts faults name d ≡ ok d'
      → apply_all scripts faults (name ∷ names) d ≡ apply_all scripts faults names d'
  unfolding apply_all
  apply_all-ok faults name names d d' e = rw (apply_all, e) refl

  apply_all-err :
      (faults : Faults S) (name : String) (names : List String) (d : Database S) (f : Failure)
      → apply_name scripts faults name d ≡ err f
      → apply_all scripts faults (name ∷ names) d ≡ (err f, d)
  unfolding apply_all
  apply_all-err faults name names d f e = rw (apply_all, e) refl

  migrate-names :
      (faults : Faults S) (names : List String) (d : Database S)
      → faults.create d ≡ none
      → migration_names scripts ≡ ok names
      → migrate scripts faults d ≡ apply_all scripts faults names d
  unfolding migrate
  migrate-names faults names d c n = rw (migrate, c) (rw n refl)

  migrate-stopped :
      (faults : Faults S) (d : Database S) (f : Failure)
      → faults.create d ≡ none
      → migration_names scripts ≡ err f
      → migrate scripts faults d ≡ (err f, d)
  unfolding migrate
  migrate-stopped faults d f c n = rw (migrate, c) (rw n refl)

module _ {S : Type 0} (scripts : Scripts S) (faults : Faults S) where
  apply_migration-ok :
      (name body : String) (d d' : Database S)
      → apply_migration scripts faults name body d ≡ ok d'
      → (changed : S) × (scripts.exec body d.data_of ≡ ok changed)
        × (record { data_of = changed; applied = d.applied ++ name ∷ [] } ≡ d')
  unfolding apply_migration
  apply_migration-ok name body d d' h = elim (Option-cases (faults.begin name d)) [
    | inr (f, b) ↦ absurd (ground arith)
    | inl b ↦ elim (Result-cases (scripts.exec body d.data_of)) [
      | inr (f, e) ↦ absurd (ground arith)
      | inl (changed, e) ↦ elim (Option-cases (faults.insert name d)) [
        | inr (f, i) ↦ absurd (ground arith)
        | inl i ↦ elim (Option-cases (faults.commit name d)) [
          | inr (f, c) ↦ absurd (ground arith)
          | inl c ↦ (changed, e, ground arith)
        ]
      ]
    ]
  ]

  -- A round that succeeds leaves what it leaves in a database that does not fail, with the name
  -- in it, and no name is lost.
  apply_name-ok :
      (name : String) (d d' : Database S)
      → apply_name scripts faults name d ≡ ok d'
      → (apply_name scripts healthy name d ≡ ok d')
        × (is_applied d' name ≡ true)
        × ((other : String) → is_applied d other ≡ true → is_applied d' other ≡ true)
  unfolding apply_name apply_migration
  apply_name-ok name d d' h = elim (Option-cases (faults.query name d)) [
    | inr (f, q) ↦ absurd (ground arith)
    | inl q ↦ elim (Bool-cases (is_applied d name)) [
      | inl e ↦
          let same : d ≡ d' = ground arith in (ground arith, ground arith, λ o k. ground arith)
      | inr e ↦ elim (Result-cases (scripts.read_file name)) [
        | inr (f, r) ↦ absurd (ground arith)
        | inl (body, r) ↦
            let done : apply_migration scripts faults name body d ≡ ok d' = ground arith in
            let (changed, ran, form) = apply_migration-ok name body d d' done in
            (
              ground arith,
              ground (arith, any-append (λ a. a == name) d.applied (name ∷ []), eq_refl name),
              λ o k. ground (arith, any-append (λ a. a == o) d.applied (name ∷ [])),
            )
      ]
    ]
  ]

  kept_applied :
      (names : List String) (d : Database S) (name : String)
      → is_applied d name ≡ true
      → is_applied (apply_all scripts faults names d).1 name ≡ true
  unfolding apply_all
  kept_applied [] d name h = h
  kept_applied (n ∷ names) d name h = elim (Result-cases (apply_name scripts faults n d)) [
    | inr (f, e) ↦ rw (apply_all-err scripts faults n names d f e) h
    | inl (d', e) ↦
        rw (apply_all-ok scripts faults n names d d' e)
          (kept_applied names d' name ((apply_name-ok n d d' e).2 name h))
  ]

  skipped :
      (name : String) (d : Database S)
      → is_applied d name ≡ true
      → apply_name scripts healthy name d ≡ ok d
  unfolding apply_name
  skipped name d h = rw h refl

  resumed :
      (names : List String) (d : Database S)
      → apply_all scripts healthy names (apply_all scripts faults names d).1
        ≡ apply_all scripts healthy names d
  unfolding apply_all
  resumed [] d = refl
  resumed (name ∷ names) d = elim (Result-cases (apply_name scripts faults name d)) [
    | inr (f, e) ↦ rw (apply_all-err scripts faults name names d f e) refl
    | inl (d', e) ↦
        let (same, there, keeps) = apply_name-ok name d d' e in
        let left = (apply_all scripts faults names d').1 in
        let passed = skipped name left (kept_applied names d' name there) in
        rw
          (
            apply_all-ok scripts faults name names d d' e,
            apply_all-ok scripts healthy name names d d' same,
          )
          (rw (apply_all-ok scripts healthy name names left left passed) (resumed names d'))
  ]

  -- After a success every name of the loop is in schema_migrations.
  apply_all-applied :
      (names : List String) (d : Database S)
      → (apply_all scripts faults names d).0 ≡ ok tt
      → All (λ name. is_applied (apply_all scripts faults names d).1 name ≡ true) names
  apply_all-applied [] d h = tt
  apply_all-applied (name ∷ names) d h = elim (Result-cases (apply_name scripts faults name d)) [
    | inr (f, e) ↦ absurd (ground (arith, apply_all-err scripts faults name names d f e))
    | inl (d', e) ↦
        let same = apply_all-ok scripts faults name names d d' e in
        let (_, there, _) = apply_name-ok name d d' e in
        let rest = apply_all-applied names d' (subst (λ r. r.0 ≡ ok tt) same h) in
        subst (λ r. All (λ n. is_applied r.1 n ≡ true) (name ∷ names)) (sym same)
          (kept_applied names d' name there, rest)
  ]

  migrate-uncreated :
      (d : Database S) (f : Failure)
      → faults.create d ≡ some f
      → migrate scripts faults d ≡ (err f, d)
  unfolding migrate
  migrate-uncreated d f c = rw (migrate, c) refl

  -- Whatever interrupts a migration, wherever, a later one over a database that does not fail
  -- leaves the database, and has the result, of one that was never interrupted.
  pub migrate-Resumes :
      (d : Database S)
      → migrate scripts healthy (migrate scripts faults d).1 ≡ migrate scripts healthy d
  unfolding migrate
  migrate-Resumes d = elim (Option-cases (faults.create d)) [
    | inr (f, c) ↦ rw (migrate-uncreated d f c) refl
    | inl c ↦ elim (Result-cases (migration_names scripts)) [
      | inr (f, n) ↦ rw (migrate-stopped scripts faults d f c n) refl
      | inl (names, n) ↦
          let left = (apply_all scripts faults names d).1 in
          rw (migrate-names scripts faults names d c n) (
            rw
              (
                migrate-names scripts healthy names left refl n,
                migrate-names scripts healthy names d refl n,
              )
              (resumed names d))
    ]
  ]

  -- A migration that succeeds has left every script's name in the table.
  pub migrate-applied :
      (d : Database S)
      → (migrate scripts faults d).0 ≡ ok tt
      → (names : List String) × (migration_names scripts ≡ ok names)
        × All (λ name. is_applied (migrate scripts faults d).1 name ≡ true) names
  migrate-applied d h = elim (Option-cases (faults.create d)) [
    | inr (f, c) ↦ absurd (ground (arith, migrate-uncreated d f c))
    | inl c ↦ elim (Result-cases (migration_names scripts)) [
      | inr (f, n) ↦ absurd (ground (arith, migrate-stopped scripts faults d f c n))
      | inl (names, n) ↦
          let same = migrate-names scripts faults names d c n in
          (
            names,
            n,
            subst (λ r. All (λ a. is_applied r.1 a ≡ true) names) (sym same)
                (apply_all-applied names d (subst (λ r. r.0 ≡ ok tt) same h)),
          )
    ]
  ]
