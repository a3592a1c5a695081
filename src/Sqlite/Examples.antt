-- ===== src/Sqlite/Examples.antt =====
-- internal/store/sqlite at concrete inputs.
use mera_drive.Base.{◌≡◌, refl, List, [], ◌∷◌}
use mera_drive.Base.Result.{ok}
use mera_drive.Samples.{asha, ravi, work, home, laptop, tables}
use mera_drive.Store.{Account, is_valid_scope}
use mera_drive.Sqlite.Invariant.{IsSound}
use mera_drive.Sqlite.Users
use mera_drive.Sqlite.Accounts
use mera_drive.Sqlite.Sessions
use mera_drive.Sqlite.Commands.{Command, execute, execute_all, empty, execute_all-IsSound}
use mera_drive.Sqlite.Maps.{view, replay, no_entries}
use mera_drive.Sqlite.Refinement.Sequences
use mera_drive.Sqlite.Refinement.Sequences.{execute_all-Refines}

-- Two users, two accounts of the first, one refused twin, and a session.
abbrev history : List Command
history =
    Command.create_user asha
    ∷ Command.create_user ravi
    ∷ Command.create_account work
    ∷ Command.create_account home
    ∷ Command.create_account (record home { id = "a3" })
    ∷ Command.create_session laptop
    ∷ []

history_tables : execute_all history empty ≡ tables
unfolding execute_all execute Users.create Accounts.create Sessions.create is_valid_scope
history_tables = refl

execute_all-IsSound_example : IsSound (execute_all history empty)
execute_all-IsSound_example = execute_all-IsSound history

execute_all-Refines_example :
    view (execute_all history empty) ≡ replay (Sequences.history history empty) no_entries
execute_all-Refines_example = execute_all-Refines history

abbrev third : Account
third = record home { id = "a3"; google_user_id = "g3" }

third_created : (Accounts.create third tables).0 ≡ ok tt
unfolding Accounts.create is_valid_scope
third_created = refl

asha_deleted : (Users.delete "u1" tables).0 ≡ ok tt
unfolding Users.delete
asha_deleted = refl
