-- ===== src/Accounts/Wired.antt =====
-- cmd/server/main.go, the wiring of the accounts service: its operations over the tables of
-- internal/store/sqlite and the token manager of internal/google/tokens.go. Requests run one
-- after the other here.
pub mod Doors
pub mod Rows
pub mod SavedOrder
pub mod Positions
use mera_drive.Base.{ℕ, String, Option, List, [], ◌∷◌}
use mera_drive.Base.Result.{Result, ok, err, Act}
use mera_drive.Apperr.{Failure, Fault}
use mera_drive.Sqlite.Tables.{Tables, Statement}
use mera_drive.Sqlite.Accounts
use mera_drive.Google.Tokens.{Refresher, Manager, Role, access_token, forget}
use mera_drive.Accounts.{Deps, StorageQuota}

pub record State (W : Type 0) : Type 0 where
  pub tables : Tables
  pub manager : Manager W

-- What is outside: the keyring's Open, the refresher with its clock, and two calls to Google.
pub record Outside (W : Type 0) : Type 0 where
  pub open_refresh_token : String → Result Fault String
  pub refresher : Refresher W
  pub about : String → Act W Fault StorageQuota
  pub revoke : String → Act W Fault (Unit {0})

module _ {W : Type 0} where
  abbrev pub with_world : State W → W → State W
  with_world s w = record s { manager = record s.manager { world = w } }

  -- A statement on the tables.
  abbrev pub on_tables : {A : Type 0} → Statement A → Act (State W) Failure A
  on_tables statement s = let (reply, t) = statement s.tables in (reply, record s { tables = t })

  -- A call to the outside.
  abbrev pub on_world : {A : Type 0} → Act W Fault A → Act (State W) Fault A
  on_world call s = let (reply, w) = call s.manager.world in (reply, with_world s w)

  abbrev pub on_manager : Act (Manager W) Fault String → Act (State W) Fault String
  on_manager call s = let (reply, m) = call s.manager in (reply, record s { manager = m })

  abbrev pub clock : Outside W → State W → ℕ
  clock out s = out.refresher.now s.manager.world

  abbrev pub wired : Outside W → Deps (State W)
  wired out = record {
    list_accounts = λ user_id. on_tables (Accounts.list user_id);
    get_account = λ user_id id. on_tables (Accounts.get user_id id);
    update_account = λ a s. on_tables (Accounts.update a (clock out s)) s;
    set_account_status = λ id status s. on_tables (Accounts.set_status id status (clock out s)) s;
    touch_account = λ id s. on_tables (Accounts.touch id (clock out s)) s;
    delete_account = λ user_id id. on_tables (Accounts.delete user_id id);
    open_refresh_token = out.open_refresh_token;
    access_token = λ id refresh_token.
        on_manager (access_token out.refresher (λ m. m) Role.leads id refresh_token);
    forget = λ id s. record s { manager = forget out.refresher id s.manager };
    about = λ token. on_world (out.about token);
    revoke = λ token. on_world (out.revoke token);
  }
