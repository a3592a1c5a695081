-- ===== src/Accounts.antt =====
-- internal/accounts/service.go: the connected accounts of a user. The store, the token manager,
-- the Drive client and the revoker are a record of operations over the world, which
-- Accounts/Wired.antt fills with the models of the store and of the manager; contexts with their
-- timeouts and the log are left out.
pub mod Listing
pub mod Summary
pub mod Order
pub mod Wired
mod Examples
use mera_drive.Base.{
  ℕ, suc, String, Bool, true, false, not, ◌&&◌, ◌||◌, Option, none, some, List, [], ◌∷◌, ◌==◌, eqb,
  length, any, select, find_first, if◌then◌else◌,
}
use mera_drive.Base.Int.{ℤ}
use mera_drive.Base.Result.{Result, ok, err, Act}
use mera_drive.Base.Act.{pure, raise, lift, perform, ◌>>=◌, ◌>>◌}
use mera_drive.Apperr.{
  Code, Error, Failure, Fault, app, raw, error, plain, fail, fail_with, tagged, with_account,
  is_reauth_required, newf,
}
use mera_drive.Store.{Scope, AccountStatus, Account, is_disconnected, needs_reauth}

-- `StorageQuota` of internal/google/drive.go
pub record StorageQuota : Type 0 where
  pub limit : Option ℤ
  pub usage : ℤ
  pub usage_in_drive : ℤ
  pub usage_in_trash : ℤ

-- The fields of `Service`: `store.Store`, `TokenOpener`, `AccessTokens`, `DriveClient`, `Revoker`.
pub record Deps (W : Type 0) : Type 0 where
  pub list_accounts : String → Act W Failure (List Account)
  pub get_account : String → String → Act W Failure Account
  pub update_account : Account → Act W Failure (Unit {0})
  pub set_account_status : String → AccountStatus → Act W Failure (Unit {0})
  pub touch_account : String → Act W Failure (Unit {0})
  pub delete_account : String → String → Act W Failure (Unit {0})
  pub open_refresh_token : String → Result Fault String
  pub access_token : String → String → Act W Fault String
  pub forget : String → W → W
  pub about : String → Act W Fault StorageQuota
  pub revoke : String → Act W Fault (Unit {0})

abbrev pub is_missing : Failure → Bool
is_missing Failure.store_not_found = true
is_missing _ = false

-- An error of the store as an error of the service.
unfoldable pub store_error {ℓ} : {A : Type ℓ} → String → Failure → Result Fault A
store_error what f =
    if is_missing f
    then fail Code.not_found "That connected account does not exist."
    else fail_with Code.internal what f

unfoldable pub internal_error {ℓ} : {A : Type ℓ} → String → Failure → Result Fault A
internal_error what f = fail_with Code.internal what f

-- A call of the store, its error turned into one of the service.
unfoldable pub or_error :
    {W A : Type 0} → (Failure → Result Fault A) → Act W Failure A → Act W Fault A
or_error f call w = let (reply, w') = call w in elim reply [ ok a ↦ (ok a, w') | err e ↦ (f e, w') ]

-- A call whose error is only logged.
unfoldable pub ignoring : {W A : Type 0} → Act W Failure A → W → W
ignoring call w = (call w).1

module _ {W : Type 0} (deps : Deps W) where
  unfoldable pub note_failure : Account → Error → W → W
  unfolding ignoring
  note_failure account failure w =
      let w1 = deps.forget account.id w in
      if not (is_reauth_required failure.code)
      then w
      else if needs_reauth account.status
      then w1
      else ignoring (deps.set_account_status account.id AccountStatus.reauth_required) w1

  unfoldable pub touch : String → W → W
  unfolding ignoring
  touch account_id w = ignoring (deps.touch_account account_id) w

  unfoldable pub access_token_for_account : Account → Act W Fault String
  access_token_for_account account = do
    refresh_token ← lift (deps.open_refresh_token account.refresh_token_enc)
    deps.access_token account.id refresh_token

  -- The rest of `AccessTokenFor` after the account is read.
  unfoldable pub token_of : Account → Act W Fault (Account × String)
  unfolding access_token_for_account note_failure
  token_of account w =
      let (reply, w') = access_token_for_account account w in
      if is_disconnected account.status
      then (
        err (
            app (
              with_account
                (error Code.reauth_required
                  (plain "This account is disconnected. Reconnect it to use it."))
                account.id)),
        w,
      )
      else elim reply [
        | ok token ↦ (ok (account, token), w')
        | err f ↦ (err (app (tagged f account.id)), note_failure account (tagged f account.id) w')
      ]

  unfoldable pub access_token_for : String → String → Act W Fault (Account × String)
  unfolding or_error store_error token_of
  access_token_for user_id account_id = do
    account ←
        or_error (store_error "Could not read the connected account.")
          (deps.get_account user_id account_id)
    token_of account

  unfoldable pub connected : String → Act W Fault (List Account)
  unfolding or_error internal_error
  connected user_id = do
    stored ←
        or_error (internal_error "Could not read your connected accounts.")
          (deps.list_accounts user_id)
    pure (select (λ a. not (is_disconnected a.status)) stored)

  -- The best effort of `Disconnect` to end Google's grant.
  unfoldable pub revoke_grant : Account → W → W
  revoke_grant account w = elim (deps.open_refresh_token account.refresh_token_enc) [
    | ok refresh_token ↦ (deps.revoke refresh_token w).1
    | err f ↦ w
  ]

  unfoldable pub disconnect : String → String → Act W Fault (Unit {0})
  unfolding or_error store_error revoke_grant
  disconnect user_id account_id = do
    account ←
        or_error (store_error "Could not read the connected account.")
          (deps.get_account user_id account_id)
    perform (revoke_grant account)
    perform (deps.forget account_id)
    or_error (store_error "Could not disconnect the account.")
        (deps.delete_account user_id account_id)

  unfoldable pub fetch_quota : Account → Act W Fault StorageQuota
  unfolding access_token_for_account
  fetch_quota account = do token ← access_token_for_account account; deps.about token
