-- ===== src/Sqlite/Migrations/Examples.antt =====
-- internal/store/sqlite/sqlite.go, Migrate, at concrete inputs: two scripts, and a transaction
-- that does not commit.
use mera_drive.Base.{
  String, false, none, some, List, [], ◌∷◌, ◌++◌, ◌==◌, ◌≡◌, refl, ends_with, compare_text,
  if◌then◌else◌,
}
use mera_drive.Base.Result.{ok, err}
use mera_drive.Base.Sorting.{sort_stable}
use mera_drive.Apperr.{other}
use mera_drive.Sqlite.Migrations.{
  Database, Scripts, Faults, migration_names, apply_migration, apply_name, apply_all, migrate,
}
use mera_drive.Sqlite.Migrations.Resume.{healthy, migrate-Resumes}

abbrev pub scripts : Scripts (List String)
scripts = record {
  entries = ok (
      record { name = "0002.sql"; is_dir = false }
      ∷ record { name = "README.md"; is_dir = false }
      ∷ record { name = "0001.sql"; is_dir = false }
      ∷ []);
  read_file = λ name. ok name;
  exec = λ body ran. ok (ran ++ body ∷ []);
}

abbrev pub interrupted : Faults (List String)
interrupted = record (healthy {S = List String}) {
  commit = λ name d. if name == "0002.sql" then some (other "disk full") else none;
}

abbrev pub blank : Database (List String)
blank = record { data_of = []; applied = [] }

half_done :
    migrate scripts interrupted blank
    ≡ (err (other "disk full"), record { data_of = "0001.sql" ∷ []; applied = "0001.sql" ∷ [] })
unfolding migrate migration_names apply_all apply_name apply_migration sort_stable ends_with
    compare_text
half_done = refl

migrate-Resumes_example :
    migrate scripts healthy (migrate scripts interrupted blank).1 ≡ migrate scripts healthy blank
migrate-Resumes_example = migrate-Resumes scripts interrupted blank
