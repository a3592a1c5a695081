-- ===== src/Server/Meta.antt =====
-- internal/server/routes_meta.go and handleAuthSession of internal/server/routes_auth.go: the
-- answers that are made of what the server already holds.
use mera_drive.Base.{ℕ, String}
use mera_drive.Base.Result.{Result, ok, err}
use mera_drive.Apperr.{Code, Failure, Fault, fail_with}
use mera_drive.Config.{Config}
use mera_drive.Store.{User, Session}

pub record BuildInfo : Type 0 where
  pub version : String
  pub commit : String
  pub built : String

pub record MetaResponse : Type 0 where
  pub name : String
  pub environment : String
  pub build : BuildInfo

-- `handleHealth` touches nothing.
abbrev pub health : Result Fault String
health = ok "ok"

-- `handleReady`, by what the ping of the database returns.
unfoldable pub ready : Result Failure (Unit {0}) → Result Fault String
ready (ok _) = ok "ready"
ready (err f) = fail_with Code.upstream_unavailable "The database is not reachable." f

unfoldable pub meta : Config → BuildInfo → Result Fault MetaResponse
meta config build = ok (record { name = "SangamDrive"; environment = config.env; build = build })

-- `userDTO` and `sessionDTO`
pub record UserDto : Type 0 where
  pub id : String
  pub email : String
  pub name : String
  pub avatar_url : String

pub record SessionDto : Type 0 where
  pub user : UserDto
  pub expires_at : ℕ

unfoldable pub to_user_dto : User → UserDto
to_user_dto u = record { id = u.id; email = u.email; name = u.name; avatar_url = u.avatar_url }

unfoldable pub auth_session : User × Session → Result Fault SessionDto
unfolding to_user_dto
auth_session (user, session) =
    ok (record { user = to_user_dto user; expires_at = session.expires_at })
