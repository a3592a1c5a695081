-- ===== src/Sqlite/Commands.antt =====
-- internal/store/store.go: the interfaces of the store as the commands that change the tables, and
-- internal/store/sqlite/sqlite.go: what a sequence of them leaves.
use mera_drive.Base.{ℕ, String, List, [], ◌∷◌}
use mera_drive.Store.{AccountStatus, User, Account, Session}
use mera_drive.Sqlite.Tables.{Tables}
use mera_drive.Sqlite.Users
use mera_drive.Sqlite.Accounts
use mera_drive.Sqlite.Sessions
use mera_drive.Sqlite.Preferences
use mera_drive.Sqlite.Invariant.{IsSound}
use mera_drive.Sqlite.Invariant.UserRows
use mera_drive.Sqlite.Invariant.AccountRows
use mera_drive.Sqlite.Invariant.SessionRows
use mera_drive.Sqlite.Invariant.PreferenceRows

-- `UserStore`, `AccountStore`, `SessionStore` and `PreferenceStore`, less the reads. The time of an
-- update is the statement's `time.Now()`.
pub data Command : Type 0 where
  create_user : User → Command
  update_user_profile : String → String → String → ℕ → Command
  delete_user : String → Command
  create_account : Account → Command
  update_account : Account → ℕ → Command
  set_account_status : String → AccountStatus → ℕ → Command
  touch_account : String → ℕ → Command
  delete_account : String → String → Command
  create_session : Session → Command
  touch_session : String → ℕ → Command
  delete_session : String → Command
  delete_user_sessions : String → Command
  delete_expired_sessions : ℕ → Command
  set_preference : String → String → String → ℕ → Command
  delete_preference : String → String → Command

-- The tables that a command leaves, refused or not.
unfoldable pub execute : Command → Tables → Tables
execute (Command.create_user u) t = (Users.create u t).1
execute (Command.update_user_profile id name avatar_url now) t =
    (Users.update_profile id name avatar_url now t).1
execute (Command.delete_user id) t = (Users.delete id t).1
execute (Command.create_account a) t = (Accounts.create a t).1
execute (Command.update_account a now) t = (Accounts.update a now t).1
execute (Command.set_account_status id status now) t = (Accounts.set_status id status now t).1
execute (Command.touch_account id at) t = (Accounts.touch id at t).1
execute (Command.delete_account user_id id) t = (Accounts.delete user_id id t).1
execute (Command.create_session s) t = (Sessions.create s t).1
execute (Command.touch_session id at) t = (Sessions.touch id at t).1
execute (Command.delete_session id) t = (Sessions.delete id t).1
execute (Command.delete_user_sessions user_id) t = (Sessions.delete_of_user user_id t).1
execute (Command.delete_expired_sessions now) t = (Sessions.delete_expired now t).1
execute (Command.set_preference user_id key value now) t =
    (Preferences.set user_id key value now t).1
execute (Command.delete_preference user_id key) t = (Preferences.delete user_id key t).1

unfoldable pub execute_all : List Command → Tables → Tables
execute_all [] t = t
execute_all (c ∷ cs) t = execute_all cs (execute c t)

abbrev pub empty : Tables
empty = record { users = []; accounts = []; sessions = []; preferences = [] }

pub execute-IsSound : (c : Command) (t : Tables) → IsSound t → IsSound (execute c t)
unfolding execute
execute-IsSound (Command.create_user u) t h = UserRows.create-IsSound u t h
execute-IsSound (Command.update_user_profile id name avatar_url now) t h =
    UserRows.update_profile-IsSound id name avatar_url now t h
execute-IsSound (Command.delete_user id) t h = UserRows.delete-IsSound id t h
execute-IsSound (Command.create_account a) t h = AccountRows.create-IsSound a t h
execute-IsSound (Command.update_account a now) t h = AccountRows.update-IsSound a now t h
execute-IsSound (Command.set_account_status id status now) t h =
    AccountRows.set_status-IsSound id status now t h
execute-IsSound (Command.touch_account id at) t h = AccountRows.touch-IsSound id at t h
execute-IsSound (Command.delete_account user_id id) t h = AccountRows.delete-IsSound user_id id t h
execute-IsSound (Command.create_session s) t h = SessionRows.create-IsSound s t h
execute-IsSound (Command.touch_session id at) t h = SessionRows.touch-IsSound id at t h
execute-IsSound (Command.delete_session id) t h = SessionRows.delete-IsSound id t h
execute-IsSound (Command.delete_user_sessions user_id) t h =
    SessionRows.delete_of_user-IsSound user_id t h
execute-IsSound (Command.delete_expired_sessions now) t h =
    SessionRows.delete_expired-IsSound now t h
execute-IsSound (Command.set_preference user_id key value now) t h =
    PreferenceRows.set-IsSound user_id key value now t h
execute-IsSound (Command.delete_preference user_id key) t h =
    PreferenceRows.delete-IsSound user_id key t h

pub empty-IsSound : IsSound empty
empty-IsSound = record {
  user_ids = tt;
  emails = tt;
  account_ids = tt;
  links = tt;
  session_ids = tt;
  hashes = tt;
  keys = tt;
  scopes = tt;
  account_users = tt;
  session_users = tt;
  preference_users = tt;
}

execute_all-kept : (cs : List Command) (t : Tables) → IsSound t → IsSound (execute_all cs t)
unfolding execute_all
execute_all-kept [] t h = h
execute_all-kept (c ∷ cs) t h = execute_all-kept cs (execute c t) (execute-IsSound c t h)

-- The tables that any sequence of the store's writing statements leaves, from an empty database,
-- are sound: no two users share an id or an e-mail, no two accounts an id or a user's Google
-- identity, no two sessions an id or a token hash, no two preferences a user and key; every
-- account has one of the two scopes; and every account, session and preference belongs to a user
-- who exists.
pub execute_all-IsSound : (cs : List Command) → IsSound (execute_all cs empty)
execute_all-IsSound cs = execute_all-kept cs empty empty-IsSound
