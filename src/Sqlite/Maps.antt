-- ===== src/Sqlite/Maps.antt =====
-- internal/store/store.go: what the store promises, as four maps: users by id, accounts by user
-- and id, sessions by token hash, preferences by user and key. Each command is an operation on
-- the maps. The order of times is that of Sqlite/Times, since the expired sessions are found by it.
use mera_drive.Base.{
  String, Bool, not, ◌&&◌, Option, none, some, List, [], ◌∷◌, ◌==◌, find_first, if◌then◌else◌,
}
use mera_drive.Store.{User, Account, Session}
use mera_drive.Sqlite.Times.{is_not_after}
use mera_drive.Sqlite.Tables.{Preference, Tables}
use mera_drive.Sqlite.Accounts.{is_row}
use mera_drive.Sqlite.Preferences.{is_pref}
use mera_drive.Sqlite.Commands.{Command}

pub record Maps : Type 0 where
  pub user : String → Option User
  pub account : String → String → Option Account
  pub session : String → Option Session
  pub preference : String → String → Option Preference

-- The maps of the tables.
abbrev pub view : Tables → Maps
view t = record {
  user = λ id. find_first (λ u. u.id == id) t.users;
  account = λ user_id id. find_first (is_row user_id id) t.accounts;
  session = λ hash. find_first (λ s. s.token_hash == hash) t.sessions;
  preference = λ user_id key. find_first (is_pref user_id key) t.preferences;
}

-- An entry that is kept if it passes a test, and one that is changed if it does.
abbrev pub kept : {A : Type 0} → (A → Bool) → Option A → Option A
kept test none = none
kept test (some x) = if test x then some x else none

abbrev pub changed : {A : Type 0} → (A → Bool) → (A → A) → Option A → Option A
changed test f none = none
changed test f (some x) = some (if test x then f x else x)

-- A new entry for a key that had none.
abbrev pub added : {A : Type 0} → (A → Bool) → A → Option A → Option A
added is_key x none = if is_key x then some x else none
added is_key x (some y) = some y

-- What a command that is accepted does to the maps.
unfoldable pub effect : Command → Maps → Maps
effect (Command.create_user u) m = record m { user = λ id. added (λ v. v.id == id) u (m.user id) }
effect (Command.update_user_profile id name avatar_url now) m = record m {
  user = λ k.
      changed (λ u. u.id == id)
        (λ u. record u { name = name; avatar_url = avatar_url; updated_at = now }) (m.user k);
}
effect (Command.delete_user id) m = record {
  user = λ k. kept (λ u. not (u.id == id)) (m.user k);
  account = λ u k. kept (λ a. not (a.user_id == id)) (m.account u k);
  session = λ k. kept (λ s. not (s.user_id == id)) (m.session k);
  preference = λ u k. kept (λ p. not (p.user_id == id)) (m.preference u k);
}
effect (Command.create_account a) m = record m {
  account = λ u k. added (is_row u k) a (m.account u k);
}
effect (Command.update_account a now) m = record m {
  account = λ u k.
      changed (is_row a.user_id a.id)
        (λ row. record row {
          email = a.email;
          name = a.name;
          avatar_url = a.avatar_url;
          scope = a.scope;
          status = a.status;
          refresh_token_enc = a.refresh_token_enc;
          sort_order = a.sort_order;
          last_used_at = a.last_used_at;
          updated_at = now;
        })
        (m.account u k);
}
effect (Command.set_account_status id status now) m = record m {
  account = λ u k.
      changed (λ a. a.id == id) (λ a. record a { status = status; updated_at = now })
        (m.account u k);
}
effect (Command.touch_account id at) m = record m {
  account =
      λ u k. changed (λ a. a.id == id) (λ a. record a { last_used_at = some at }) (m.account u k);
}
effect (Command.delete_account user_id id) m = record m {
  account = λ u k. kept (λ a. not (is_row user_id id a)) (m.account u k);
}
effect (Command.create_session s) m = record m {
  session = λ k. added (λ r. r.token_hash == k) s (m.session k);
}
effect (Command.touch_session id at) m = record m {
  session = λ k. changed (λ s. s.id == id) (λ s. record s { last_seen_at = at }) (m.session k);
}
effect (Command.delete_session id) m = record m {
  session = λ k. kept (λ s. not (s.id == id)) (m.session k);
}
effect (Command.delete_user_sessions user_id) m = record m {
  session = λ k. kept (λ s. not (s.user_id == user_id)) (m.session k);
}
effect (Command.delete_expired_sessions now) m = record m {
  session = λ k. kept (λ s. not (is_not_after s.expires_at now)) (m.session k);
}
effect (Command.set_preference user_id key value now) m = record m {
  preference = λ u k.
      let entry : Preference = record {
        user_id = user_id;
        key = key;
        value = value;
        updated_at = now;
      } in
      if user_id == u && key == k then some entry else m.preference u k;
}
effect (Command.delete_preference user_id key) m = record m {
  preference = λ u k. if user_id == u && key == k then none else m.preference u k;
}

-- A refused command does nothing.
abbrev pub outcome : Command × Bool → Maps → Maps
outcome (c, accepted) m = if accepted then effect c m else m

unfoldable pub replay : List (Command × Bool) → Maps → Maps
replay [] m = m
replay (e ∷ events) m = replay events (outcome e m)

abbrev pub no_entries : Maps
no_entries = record {
  user = λ id. none;
  account = λ u id. none;
  session = λ hash. none;
  preference = λ u k. none;
}
