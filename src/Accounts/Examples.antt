-- ===== src/Accounts/Examples.antt =====
-- internal/accounts at concrete inputs: the sample tables, and a Google that answers every refresh.
use mera_drive.Base.{
  ℕ, ◌+◌, ◌-◌, ◌*◌, true, false, ◌≡◌, refl, arith, none, some, List, [], ◌∷◌, ◌==◌, ◌<>◌, All, Elem,
  if◌then◌else◌,
}
use mera_drive.Base.Int.{pos}
use mera_drive.Base.Result.{ok, err}
use mera_drive.Base.Sorting.{sort_stable}
use mera_drive.Apperr.{Code, Failure, fail}
use mera_drive.Samples.{asha, ravi, work, home, laptop, tables}
use mera_drive.Google.Errors.{second}
use mera_drive.Google.Tokens.{Refresher, cached, renew, access_token}
use mera_drive.Store.{Account, is_disconnected, is_valid_scope}
use mera_drive.Sqlite.Accounts
use mera_drive.Accounts.{
  StorageQuota, or_error, token_of, access_token_for, access_token_for_account, disconnect,
  revoke_grant,
}
use mera_drive.Accounts.Listing.{View, new_view, list, ShowsAll, list-ShowsAll}
use mera_drive.Accounts.Summary.{
  summarise, usage_of, limit_of, total, any_limit, NaturalQuota, summarise-totals,
}
use mera_drive.Accounts.Order.{check_ids, check_order, lookup, place, save_order, reorder}
use mera_drive.Accounts.Wired.SavedOrder.{Placed}
use mera_drive.Accounts.Wired.Positions.{reorder-Placed}
use mera_drive.Sqlite.Users
use mera_drive.Sqlite.Sessions
use mera_drive.Sqlite.Invariant.{IsSound}
use mera_drive.Sqlite.Commands.{Command, execute, execute_all, empty, execute_all-IsSound}
use mathlib.Core.Path.{subst}
use mera_drive.Accounts.Wired.{State, Outside, wired}
use mera_drive.Accounts.Wired.Doors.{access_token_for-Owned, disconnect-Gone}

abbrev refresher : Refresher ℕ
refresher = record {
  refresh = λ credentials w. (
    ok (record {
      access_token = "token of " <> credentials;
      refresh_token = "";
      expiry = 3600 * second;
      granted_scopes = [];
    }),
    w + 1,
  );
  now = λ w. 0;
  fingerprint_of = λ credentials. "#" <> credentials;
}

abbrev quota : StorageQuota
quota = record {
  limit = some (pos 100);
  usage = pos 30;
  usage_in_drive = pos 20;
  usage_in_trash = pos 0;
}

abbrev outside : Outside ℕ
outside = record {
  open_refresh_token = λ sealed. ok sealed;
  refresher = refresher;
  about = λ token w.
      if token == "token of sealed-1"
      then (ok quota, w)
      else (fail Code.upstream_unavailable "down", w);
  revoke = λ token w. (ok tt, w);
}

abbrev state : State ℕ
state = record { tables = tables; manager = record { entries = []; world = 0 } }

work_opened : (access_token_for (wired outside) "u1" "a1" state).0 ≡ ok (work, "token of sealed-1")
unfolding access_token_for or_error token_of access_token_for_account access_token cached renew
    Accounts.get
work_opened = refl

access_token_for-Owned_example :
    Elem work state.tables.accounts
    × (Accounts.is_row "u1" "a1" work ≡ true)
    × (is_disconnected work.status ≡ false)
access_token_for-Owned_example =
    access_token_for-Owned outside "u1" "a1" "token of sealed-1" work state work_opened

work_disconnected : (disconnect (wired outside) "u1" "a1" state).0 ≡ ok tt
unfolding disconnect or_error revoke_grant Accounts.get Accounts.delete
work_disconnected = refl

disconnect-Gone_example :
    ((Accounts.get "u1" "a1" (disconnect (wired outside) "u1" "a1" state).1.tables).0
      ≡ err Failure.store_not_found)
    × (cached refresher "a1" "#sealed-1" (disconnect (wired outside) "u1" "a1" state).1.manager
        ≡ none)
disconnect-Gone_example = disconnect-Gone outside "u1" "a1" "#sealed-1" state work_disconnected

abbrev stored : List Account
stored = work ∷ home ∷ []

both_stored : ((wired outside).list_accounts "u1" state).0 ≡ ok stored
unfolding Accounts.list sort_stable
both_stored = refl

list-ShowsAll_example : ShowsAll stored (list (wired outside) (1 ∷ 0 ∷ []) "u1" state).0
list-ShowsAll_example = list-ShowsAll (wired outside) (1 ∷ 0 ∷ []) "u1" state stored both_stored

-- One account with a limit, one without, and one that failed.
abbrev views : List View
views =
    record (new_view work) { quota = some quota }
    ∷ record (new_view home) { quota = some (record quota { limit = none }) }
    ∷ new_view home
    ∷ []

views_natural : All NaturalQuota views
unfolding new_view
views_natural = ((refl, refl), ((refl, tt), (tt, tt)))

summarise-totals_example :
    ((summarise views).total_usage ≡ pos (total usage_of views))
    × ((summarise views).total_limit
        ≡ (if any_limit views then some (pos (total limit_of views)) else none))
    × ((summarise views).total_free ≡ (
        if any_limit views then some (pos (total limit_of views - total usage_of views)) else none))
unfolding new_view
summarise-totals_example = summarise-totals views views_natural (omega arith) (omega arith)

swapped : check_order stored ("a2" ∷ "a1" ∷ []) ≡ ok tt
unfolding check_order check_ids lookup
swapped = refl

abbrev writes : List Command
writes =
    Command.create_user asha
    ∷ Command.create_user ravi
    ∷ Command.create_account work
    ∷ Command.create_account home
    ∷ Command.create_session laptop
    ∷ []

written : execute_all writes empty ≡ tables
unfolding execute_all execute Users.create Accounts.create Sessions.create is_valid_scope
written = refl

sound : IsSound tables
sound = subst IsSound written (execute_all-IsSound writes)

both_moved : (reorder (wired outside) "u1" ("a2" ∷ "a1" ∷ []) state).0 ≡ ok tt
unfolding reorder save_order place check_order check_ids lookup or_error Accounts.list
    Accounts.update sort_stable is_valid_scope
both_moved = refl

reorder-Placed_example :
    Placed "u1"
      (reorder (wired outside) "u1" ("a2" ∷ "a1" ∷ []) state).1.tables
      0
      ("a2" ∷ "a1" ∷ [])
reorder-Placed_example = reorder-Placed outside "u1" ("a2" ∷ "a1" ∷ []) state sound both_moved
