-- ===== src/Server/AccountRoutes.antt =====
-- internal/server/routes_accounts.go and routes_meta.go: the handlers of the accounts and the
-- probes. The user is the one of the session; the JSON body is given as what BodyParser leaves,
-- or its error.
use mera_drive.Base.{ℕ, String, List, [], ◌∷◌, ◌==◌, eqb, length, ltb, trim_space, if◌then◌else◌}
use mera_drive.Base.Result.{Result, ok, err, Act}
use mera_drive.Base.Act.{pure, raise, lift, ◌>>=◌}
use mera_drive.Apperr.{Code, Error, Failure, Fault, number, app, error, fail, fail_with}
use mera_drive.Store.{User}
use mera_drive.Accounts.{Deps, disconnect}
use mera_drive.Accounts.Listing.{View, list}
use mera_drive.Accounts.Summary.{Summary, summarise}
use mera_drive.Accounts.Order.{reorder}
use mera_drive.Server.Linking.{max_accounts_per_user}

-- A payload with `Meta`: the number of accounts, and their failures.
pub record Page (A : Type 0) : Type 0 where
  pub value : A
  pub count : ℕ
  pub errors : List Error

-- The checks of a reorder request, before the service.
unfoldable pub check_reorder : Result Failure (List String) → Result Fault (List String)
check_reorder (err f) =
    fail_with Code.bad_request "The request body must be JSON with an account_ids array." f
check_reorder (ok ids) =
    if eqb (length ids) 0
    then fail Code.validation "account_ids must list at least one account."
    else if ltb max_accounts_per_user (length ids)
    then err (
        app (
          error Code.validation (record {
            format = "account_ids lists more than %d accounts.";
            args = number max_accounts_per_user ∷ [];
          })))
    else ok ids

module _ {W : Type 0} (deps : Deps W) (user : User) where
  -- `schedule` is the order in which the goroutines of the listing run.
  unfoldable pub list_accounts : List ℕ → Act W Fault (Page (List View))
  unfolding list
  list_accounts schedule = do
    listed ← list deps schedule user.id
    pure (record { value = listed.0; count = length listed.0; errors = listed.1 })

  unfoldable pub storage : List ℕ → Act W Fault (Page Summary)
  unfolding list summarise
  storage schedule = do
    listed ← list deps schedule user.id
    pure (record { value = summarise listed.0; count = length listed.0; errors = listed.1 })

  unfoldable pub disconnect_account : String → Act W Fault (Unit {0})
  unfolding disconnect
  disconnect_account id =
      if trim_space id == ""
      then raise (
          app
            (error Code.bad_request (record { format = "An account id is required."; args = [] })))
      else disconnect deps user.id (trim_space id)

  unfoldable pub reorder_accounts : Result Failure (List String) → Act W Fault (Unit {0})
  unfolding check_reorder reorder
  reorder_accounts body = do ids ← lift (check_reorder body); reorder deps user.id ids
