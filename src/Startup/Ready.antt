-- ===== src/Startup/Ready.antt =====
-- cmd/server/main.go: what the services are built on.
use mera_drive.Base.{◌≡◌, ◌⊎◌, inl, inr, refl, String, true, List, All}
use mera_drive.Base.Result.{Result, ok, err, Result-cases}
use mera_drive.Apperr.{Message, Failure}
use mera_drive.Sqlite.Migrations.{Database, Scripts, Faults, is_applied, migration_names, migrate}
use mera_drive.Sqlite.Migrations.Resume.{migrate-applied}
use mera_drive.Config.{Config, Platform, load}
use mera_drive.Config.Checks.{IsValid}
use mera_drive.Config.Laws.{load_iff}
use mera_drive.Cryptobox.{Primitives, Box}
use mera_drive.Startup.{configuration, storage, Up, start, bring_up}
use mera_drive.Startup.Keys.{TakesKeys, start-Decides}

-- The configuration is valid, the box signs with the session secret, and every script has run.
pub record IsReady {S : Type 0} (p : Platform) (scripts : Scripts S) (up : Up S) : Type 0 where
  pub loaded : load p ≡ ok up.config
  pub valid : IsValid p up.config
  pub mac : up.box.mac ≡ up.config.session_secret
  pub names : List String
  pub listed : migration_names scripts ≡ ok names
  pub applied : All (λ name. is_applied up.database name ≡ true) names

module _ {S : Type 0} (p : Platform) (lib : Primitives) (opened : Result Failure (Database S))
    (scripts : Scripts S) (faults : Faults S) where
  -- How a start ends, whatever the environment and the database do.
  abbrev pub Decides : Type 0
  Decides =
      ((up : Up S) × (bring_up p lib opened scripts faults ≡ ok up) × IsReady p scripts up)
      ⊎ ((ms : List Message) × (load p ≡ err ms)
          × (bring_up p lib opened scripts faults ≡ err (configuration ms)))
      ⊎ ((f : Failure) × (bring_up p lib opened scripts faults ≡ err (storage f)))

  started :
      (c : Config) (box : Box)
      → load p ≡ ok c
      → start p lib ≡ ok (c, box)
      → box.mac ≡ c.session_secret
      → Decides
  unfolding bring_up
  started c box l s mac = elim (Result-cases opened) [
    | inr (f, o) ↦ inr (inr (f, rw (bring_up, s) (rw o refl)))
    | inl (d, o) ↦ elim (Result-cases (migrate scripts faults d).0) [
      | inr (f, m) ↦ inr (inr (f, rw (bring_up, s) (rw o (rw m refl))))
      | inl (_, m) ↦
          let (names, listed, applied) = migrate-applied scripts faults d m in
          let (_, _, valid) = (load_iff p c).0 l in
          inl (
            record { config = c; box = box; database = (migrate scripts faults d).1 },
            rw (bring_up, s) (rw o (rw m refl)),
            record {
              loaded = l;
              valid = valid;
              mac = mac;
              names = names;
              listed = listed;
              applied = applied;
            },
          )
    ]
  ]

  -- With a cipher that takes every key of 32 bytes the server comes up with a valid
  -- configuration, a box that signs with the session secret, and a database on which every script
  -- has run; or it stops with the errors of the configuration, or with a failure of the database.
  -- It never gets past the configuration and then fails on a key.
  pub bring_up-Decides : TakesKeys lib → Decides
  unfolding bring_up
  bring_up-Decides takes = elim (start-Decides p lib takes) [
    | inl (c, box, l, s, mac) ↦ started c box l s mac
    | inr (ms, l, s) ↦ inr (inl (ms, l, rw (bring_up, s) refl))
  ]
