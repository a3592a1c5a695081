-- ===== src/Sqlite/Migrations.antt =====
-- internal/store/sqlite/sqlite.go, Migrate: the embedded scripts that have not run yet, each in a
-- transaction of its own. The database engine is given by what a script does to the data
-- (`Scripts`) and by which of its other steps fail in which state (`Faults`).
pub mod Resume
pub mod Examples
use mera_drive.Base.{
  ℕ, String, Bool, true, false, not, ◌&&◌, Option, none, some, List, [], ◌∷◌, ◌++◌, ◌==◌, any, map,
  select, compare_text, ends_with, if◌then◌else◌,
}
use mera_drive.Base.Order.{is_lt}
use mera_drive.Base.Sorting.{sort_stable}
use mera_drive.Base.Result.{Result, ok, err, ◌>>=◌}
use mera_drive.Apperr.{Failure}

-- The data, and the names in schema_migrations.
pub record Database (S : Type 0) : Type 0 where
  pub data_of : S
  pub applied : List String

pub record DirEntry : Type 0 where
  pub name : String
  pub is_dir : Bool

pub record Scripts (S : Type 0) : Type 0 where
  -- fs.ReadDir and ReadFile on the embedded files
  pub entries : Result Failure (List DirEntry)
  pub read_file : String → Result Failure String
  -- what the text of a script makes of the data
  pub exec : String → S → Result Failure S

pub record Faults (S : Type 0) : Type 0 where
  pub create : Database S → Option Failure
  pub query : String → Database S → Option Failure
  pub begin : String → Database S → Option Failure
  pub insert : String → Database S → Option Failure
  pub commit : String → Database S → Option Failure

-- A step that has no result.
abbrev pub step : Option Failure → Result Failure (Unit {0})
step none = ok tt
step (some f) = err f

abbrev pub is_applied : {S : Type 0} → Database S → String → Bool
is_applied d name = any (λ a. a == name) d.applied

unfoldable pub migration_names : {S : Type 0} → Scripts S → Result Failure (List String)
unfolding sort_stable compare_text ends_with
migration_names scripts = do
  entries ← scripts.entries
  ok (
      sort_stable (λ a b. is_lt (compare_text a b))
        (map (λ (e : DirEntry). e.name)
          (select (λ e. not e.is_dir && ends_with e.name ".sql") entries)))

module _ {S : Type 0} (scripts : Scripts S) (faults : Faults S) where
  -- `applyMigration`: what the transaction leaves, when it commits.
  unfoldable pub apply_migration : String → String → Database S → Result Failure (Database S)
  apply_migration name body d = do
    _ ← step (faults.begin name d)
    changed ← scripts.exec body d.data_of
    _ ← step (faults.insert name d)
    _ ← step (faults.commit name d)
    ok (record { data_of = changed; applied = d.applied ++ name ∷ [] })

  -- One round of the loop: none is left to apply, or the script of the name runs.
  unfoldable pub apply_name : String → Database S → Result Failure (Database S)
  unfolding apply_migration
  apply_name name d = do
    _ ← step (faults.query name d)
    if is_applied d name
        then ok d
        else do body ← scripts.read_file name; apply_migration name body d

  -- The loop of `Migrate`. A failed transaction is rolled back, so the error leaves the database
  -- as it was.
  unfoldable pub apply_all : List String → Database S → Result Failure (Unit {0}) × Database S
  unfolding apply_name
  apply_all [] d = (ok tt, d)
  apply_all (name ∷ names) d = elim (apply_name name d) [
    | err f ↦ (err f, d)
    | ok d' ↦ apply_all names d'
  ]

  unfoldable pub migrate : Database S → Result Failure (Unit {0}) × Database S
  unfolding migration_names apply_all
  migrate d = elim (step (faults.create d)) [
    | err f ↦ (err f, d)
    | ok _ ↦ elim (migration_names scripts) [ err f ↦ (err f, d) | ok names ↦ apply_all names d ]
  ]
