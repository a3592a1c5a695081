-- ===== src/Server/Routes.antt =====
-- internal/server/server.go: the middleware and the routes, in the order in which New and
-- registerRoutes mount them. How Fiber matches a path is the two tests of a `Router`.
pub mod Guards
mod Examples
use mera_drive.Base.{
  String, Bool, true, false, Option, none, some, List, [], ◌∷◌, ◌++◌, ◌<>◌, if◌then◌else◌,
}
use mera_drive.Base.Result.{Result, ok, err, Act}
use mera_drive.Base.Act.{raise, ◌>>=◌}
use mera_drive.Apperr.{Code, Fault, app, error, plain}
use mera_drive.Server.Guard.{Method}

pub data Middleware : Type 0 where
  request_id recover secure_headers cors access_log : Middleware
  rate_limit require_csrf require_session : Middleware

pub data Handler : Type 0 where
  health ready meta auth_start auth_callback auth_session logout logout_all : Handler
  list_accounts reorder_accounts disconnect_account storage : Handler
  list_files create_folder update_file delete_file no_endpoint : Handler

-- `app.Use(m)`, the middleware of `Group(prefix, …)`, and a handler at a path.
pub data Entry : Type 0 where
  use_all : Middleware → Entry
  group : String → Middleware → Entry
  route : Method → String → Handler → Entry
  otherwise : Handler → Entry

pub record Router : Type 0 where
  -- the prefix of a group, and the path of a request
  pub under : String → String → Bool
  -- the method and the path of a route, and those of a request
  pub matches : Method → String → Method → String → Bool

-- `New`
unfoldable pub base_stack : List Entry
base_stack =
    Entry.use_all Middleware.request_id
    ∷ Entry.use_all Middleware.recover
    ∷ Entry.use_all Middleware.secure_headers
    ∷ Entry.use_all Middleware.cors
    ∷ Entry.use_all Middleware.access_log
    ∷ []

abbrev get : String → Handler → Entry
get path h = Entry.route Method.get path h

-- `registerRoutes`
unfoldable pub register_routes : List Entry
register_routes =
    let v1 : String = "/api/v1" in
    get "/healthz" Handler.health
    ∷ get "/readyz" Handler.ready
    ∷ Entry.group v1 Middleware.rate_limit
    ∷ get (v1 <> "/meta") Handler.meta
    ∷ get (v1 <> "/auth/google/start") Handler.auth_start
    ∷ get (v1 <> "/auth/google/callback") Handler.auth_callback
    ∷ Entry.group (v1 <> "/auth") Middleware.require_csrf
    ∷ Entry.group (v1 <> "/auth") Middleware.require_session
    ∷ get (v1 <> "/auth/session") Handler.auth_session
    ∷ Entry.route Method.post (v1 <> "/auth/logout") Handler.logout
    ∷ Entry.route Method.post (v1 <> "/auth/logout-all") Handler.logout_all
    ∷ Entry.group v1 Middleware.require_csrf
    ∷ Entry.group v1 Middleware.require_session
    ∷ get (v1 <> "/accounts") Handler.list_accounts
    ∷ Entry.route Method.patch (v1 <> "/accounts/order") Handler.reorder_accounts
    ∷ Entry.route Method.delete (v1 <> "/accounts/:id") Handler.disconnect_account
    ∷ get (v1 <> "/storage") Handler.storage
    ∷ get (v1 <> "/files") Handler.list_files
    ∷ Entry.route Method.post (v1 <> "/files/folder") Handler.create_folder
    ∷ Entry.route Method.patch (v1 <> "/files/:account/:id") Handler.update_file
    ∷ Entry.route Method.delete (v1 <> "/files/:account/:id") Handler.delete_file
    ∷ Entry.otherwise Handler.no_endpoint
    ∷ []

abbrev pub stack : List Entry
stack = base_stack ++ register_routes

-- A middleware answers itself (`some`), fails, or goes on to the next entry.
unfoldable pub pass :
    {W A : Type 0}
    → (Middleware → Act W Fault (Option A))
    → Middleware
    → Act W Fault A
    → Act W Fault A
pass run m next w =
    let (reply, w') = run m w in
    elim reply [
      | err f ↦ (err f, w')
      | ok stopped ↦ elim stopped [ some a ↦ (ok a, w') | none ↦ next w' ]
    ]

-- How a request goes through the entries, as Fiber documents it: in the order in which they are
-- mounted, and through the middleware of a group for each path under its prefix.
module _ (router : Router) {W A : Type 0} (run : Middleware → Act W Fault (Option A))
    (answer : Handler → Act W Fault A) (method : Method) (path : String) where
  unfoldable pub serve : List Entry → Act W Fault A
  unfolding pass
  serve [] = raise (app (error Code.not_found (plain "That endpoint does not exist.")))
  serve (Entry.use_all m ∷ entries) = pass run m (serve entries)
  serve (Entry.group prefix m ∷ entries) =
      let rest = serve entries in if router.under prefix path then pass run m rest else rest
  serve (Entry.route k pattern h ∷ entries) =
      let rest = serve entries in if router.matches k pattern method path then answer h else rest
  serve (Entry.otherwise h ∷ entries) = answer h
