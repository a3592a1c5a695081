-- ===== src/Sqlite/Refinement/Sequences.antt =====
-- internal/store/store.go and internal/store/sqlite/sqlite.go: every use of the store, as a use
-- of the four maps.
use mera_drive.Base.{Bool, ◌≡◌, refl, ◌∙◌, ap, List, [], ◌∷◌}
use mera_drive.Sqlite.Tables.{Tables}
use mera_drive.Sqlite.Invariant.{IsSound}
use mera_drive.Sqlite.Commands.{
  Command, execute, execute_all, empty, empty-IsSound, execute-IsSound,
}
use mera_drive.Sqlite.Maps.{view, replay, no_entries}
use mera_drive.Sqlite.Refinement.Views.{Step, accepts}
use mera_drive.Sqlite.Refinement.UserSteps.{create_user-Step, update_profile-Step, delete_user-Step}
use mera_drive.Sqlite.Refinement.AccountSteps.{
  create_account-Step, update_account-Step, set_status-Step, touch_account-Step,
  delete_account-Step,
}
use mera_drive.Sqlite.Refinement.SessionSteps.{
  create_session-Step, touch_session-Step, delete_session-Step, delete_user_sessions-Step,
  delete_expired-Step,
}
use mera_drive.Sqlite.Refinement.PreferenceSteps.{set_preference-Step, delete_preference-Step}

execute-Step : (c : Command) (t : Tables) → IsSound t → Step c t
execute-Step (Command.create_user u) t h = create_user-Step u t
execute-Step (Command.update_user_profile id name avatar_url now) t h =
    update_profile-Step id name avatar_url now t
execute-Step (Command.delete_user id) t h = delete_user-Step id t h
execute-Step (Command.create_account a) t h = create_account-Step a t
execute-Step (Command.update_account a now) t h = update_account-Step a now t
execute-Step (Command.set_account_status id status now) t h = set_status-Step id status now t
execute-Step (Command.touch_account id at) t h = touch_account-Step id at t
execute-Step (Command.delete_account user_id id) t h = delete_account-Step user_id id t h
execute-Step (Command.create_session s) t h = create_session-Step s t
execute-Step (Command.touch_session id at) t h = touch_session-Step id at t
execute-Step (Command.delete_session id) t h = delete_session-Step id t h
execute-Step (Command.delete_user_sessions user_id) t h = delete_user_sessions-Step user_id t h
execute-Step (Command.delete_expired_sessions now) t h = delete_expired-Step now t h
execute-Step (Command.set_preference user_id key value now) t h =
    set_preference-Step user_id key value now t
execute-Step (Command.delete_preference user_id key) t h = delete_preference-Step user_id key t h

-- The commands, each with whether the store accepted it.
abbrev pub history : List Command → Tables → List (Command × Bool)
history [] t = []
history (c ∷ cs) t = (c, accepts c t) ∷ history cs (execute c t)

view-execute_all :
    (cs : List Command) (t : Tables)
    → IsSound t
    → view (execute_all cs t) ≡ replay (history cs t) (view t)
unfolding execute_all replay
view-execute_all [] t h = refl
view-execute_all (c ∷ cs) t h =
    view-execute_all cs (execute c t) (execute-IsSound c t h)
    ∙ ap (replay (history cs (execute c t))) (execute-Step c t h)

-- Whatever sequence of the writing statements the store is given, from an empty database, its
-- tables hold, key by key, what the four maps hold after the accepted commands: users by id,
-- accounts by user and id, sessions by token hash, and preferences by user and key.
pub execute_all-Refines :
    (cs : List Command) → view (execute_all cs empty) ≡ replay (history cs empty) no_entries
execute_all-Refines cs = view-execute_all cs empty empty-IsSound
