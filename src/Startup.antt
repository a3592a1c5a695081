-- ===== src/Startup.antt =====
-- cmd/server/main.go: the first steps of `run`, and the loop that sweeps expired sessions.
-- Opening the database, the listener and the logs are left out.
pub mod Keys
pub mod Ready
pub mod Sweep
mod Examples
use mera_drive.Base.{ℕ, List, [], ◌∷◌}
use mera_drive.Base.Result.{Result, ok, err}
use mera_drive.Apperr.{Message, Failure}
use mera_drive.Sqlite.Tables.{Tables}
use mera_drive.Sqlite.Sessions
use mera_drive.Sqlite.Migrations.{Database, Scripts, Faults, migrate}
use mera_drive.Config.{Config, Platform, load}
use mera_drive.Cryptobox.{Primitives, Box, new}

-- Why the server does not start.
pub data StartError : Type 0 where
  configuration : List Message → StartError
  crypto : Failure → StartError
  storage : Failure → StartError

-- `run` up to the box: the configuration, then the keys.
unfoldable pub start : Platform → Primitives → Result StartError (Config × Box)
start p lib = elim (load p) [
  | err ms ↦ err (configuration ms)
  | ok c ↦ elim (new lib c.encryption_key c.session_secret) [
    | err f ↦ err (crypto f)
    | ok box ↦ ok (c, box)
  ]
]

-- What the services are built from.
pub record Up (S : Type 0) : Type 0 where
  pub config : Config
  pub box : Box
  pub database : Database S

-- `run` up to the services, with what opening the database gives.
unfoldable pub bring_up :
    {S : Type 0}
    → Platform
    → Primitives
    → Result Failure (Database S)
    → Scripts S
    → Faults S
    → Result StartError (Up S)
unfolding start
bring_up p lib opened scripts faults = elim (start p lib) [
  | err e ↦ err e
  | ok (c, box) ↦ elim opened [
    | err f ↦ err (storage f)
    | ok d ↦
        let (reply, d') = migrate scripts faults d in
        elim reply [
          | err f ↦ err (storage f)
          | ok _ ↦ ok (record { config = c; box = box; database = d' })
        ]
  ]
]

-- What `pruneSessions` waits for: the ticker, with the time and whether the database answers, or
-- the end of the server.
pub data Event : Type 0 where
  tick : ℕ → Event
  tick_failed : Event
  done : Event

unfoldable pub prune_sessions : List Event → Tables → Tables
prune_sessions [] t = t
prune_sessions (tick now ∷ events) t = prune_sessions events (Sessions.delete_expired now t).1
prune_sessions (tick_failed ∷ events) t = prune_sessions events t
prune_sessions (done ∷ events) t = t
