-- ===== src/Sqlite/Refinement/Views.antt =====
-- internal/store/sqlite/sqlite.go: when a statement is accepted, and how a change of one table
-- shows in the maps.
use mera_drive.Base.{
  String, Bool, true, false, ◌≡◌, refl, arith, Option, List, ◌==◌, eq_iff, find_first,
}
use mera_drive.Base.Result.{Result, ok, err}
use mera_drive.Apperr.{Failure}
use mera_drive.Store.{User, Account, Session}
use mera_drive.Sqlite.Tables.{Preference, Tables}
use mera_drive.Sqlite.Users
use mera_drive.Sqlite.Accounts
use mera_drive.Sqlite.Accounts.{is_row, updated}
use mera_drive.Sqlite.Sessions
use mera_drive.Sqlite.Preferences
use mera_drive.Sqlite.Preferences.{is_pref}
use mera_drive.Sqlite.Invariant.{same_user_id, same_account_id, same_hash, same_key}
use mera_drive.Sqlite.Commands.{Command, execute}
use mera_drive.Sqlite.Maps.{view, effect, outcome}

abbrev is_ok : {A : Type 0} → Result Failure A → Bool
is_ok (ok a) = true
is_ok (err f) = false

-- Whether a command is accepted.
unfoldable pub accepts : Command → Tables → Bool
accepts (Command.create_user u) t = is_ok (Users.create u t).0
accepts (Command.update_user_profile id name avatar_url now) t =
    is_ok (Users.update_profile id name avatar_url now t).0
accepts (Command.delete_user id) t = is_ok (Users.delete id t).0
accepts (Command.create_account a) t = is_ok (Accounts.create a t).0
accepts (Command.update_account a now) t = is_ok (Accounts.update a now t).0
accepts (Command.set_account_status id status now) t = is_ok (Accounts.set_status id status now t).0
accepts (Command.touch_account id at) t = is_ok (Accounts.touch id at t).0
accepts (Command.delete_account user_id id) t = is_ok (Accounts.delete user_id id t).0
accepts (Command.create_session s) t = is_ok (Sessions.create s t).0
accepts (Command.touch_session id at) t = is_ok (Sessions.touch id at t).0
accepts (Command.delete_session id) t = is_ok (Sessions.delete id t).0
accepts (Command.delete_user_sessions user_id) t = is_ok (Sessions.delete_of_user user_id t).0
accepts (Command.delete_expired_sessions now) t = is_ok (Sessions.delete_expired now t).0
accepts (Command.set_preference user_id key value now) t =
    is_ok (Preferences.set user_id key value now t).0
accepts (Command.delete_preference user_id key) t = is_ok (Preferences.delete user_id key t).0

-- A command does to the maps what its effect says, if it is accepted.
abbrev pub Step : Command → Tables → Type 0
Step c t = view (execute c t) ≡ outcome (c, accepts c t) (view t)

module _ (t : Tables) where
  pub with_users :
      (rows : List User) (g : String → Option User)
      → ((k : String) → find_first (λ u. u.id == k) rows ≡ g k)
      → view (record t { users = rows }) ≡ record (view t) { user = g }
  with_users rows g h = λ i. record (view t) { user = λ k. h k i }

  pub with_accounts :
      (rows : List Account) (g : String → String → Option Account)
      → ((u k : String) → find_first (is_row u k) rows ≡ g u k)
      → view (record t { accounts = rows }) ≡ record (view t) { account = g }
  with_accounts rows g h = λ i. record (view t) { account = λ u k. h u k i }

  pub with_sessions :
      (rows : List Session) (g : String → Option Session)
      → ((k : String) → find_first (λ s. s.token_hash == k) rows ≡ g k)
      → view (record t { sessions = rows }) ≡ record (view t) { session = g }
  with_sessions rows g h = λ i. record (view t) { session = λ k. h k i }

  pub with_preferences :
      (rows : List Preference) (g : String → String → Option Preference)
      → ((u k : String) → find_first (is_pref u k) rows ≡ g u k)
      → view (record t { preferences = rows }) ≡ record (view t) { preference = g }
  with_preferences rows g h = λ i. record (view t) { preference = λ u k. h u k i }

-- Rows with one key are the same.
pub one_user :
    (k : String) (x y : User) → (x.id == k) ≡ true → (y.id == k) ≡ true → same_user_id x y ≡ true
one_user k x y a b = ground (arith, eq_iff x.id k, eq_iff y.id k, eq_iff x.id y.id)

pub one_account :
    (u k : String) (x y : Account)
    → is_row u k x ≡ true
    → is_row u k y ≡ true
    → same_account_id x y ≡ true
one_account u k x y a b = ground (arith, eq_iff x.id k, eq_iff y.id k, eq_iff x.id y.id)

pub one_session :
    (k : String) (x y : Session)
    → (x.token_hash == k) ≡ true
    → (y.token_hash == k) ≡ true
    → same_hash x y ≡ true
one_session k x y a b =
    ground (arith, eq_iff x.token_hash k, eq_iff y.token_hash k, eq_iff x.token_hash y.token_hash)

pub one_preference :
    (u k : String) (x y : Preference)
    → is_pref u k x ≡ true
    → is_pref u k y ≡ true
    → same_key x y ≡ true
one_preference u k x y a b = ground (
  arith,
  eq_iff x.user_id u,
  eq_iff y.user_id u,
  eq_iff x.user_id y.user_id,
  eq_iff x.key k,
  eq_iff y.key k,
  eq_iff x.key y.key,
)

pub accepted-Step :
    (c : Command) (t t' : Tables)
    → execute c t ≡ t'
    → accepts c t ≡ true
    → view t' ≡ effect c (view t)
    → Step c t
accepted-Step c t t' e a h = rw (e, a) h

pub refused-Step : (c : Command) (t : Tables) → execute c t ≡ t → accepts c t ≡ false → Step c t
refused-Step c t e a = rw (e, a) refl
