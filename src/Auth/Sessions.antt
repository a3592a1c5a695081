-- ===== src/Auth/Sessions.antt =====
-- internal/auth/auth.go: sessions over the tables of internal/store/sqlite, and CSRF tokens. The
-- hash and the HMAC of internal/cryptobox are parameters; a session's id and token are random
-- texts that the caller gives, and so is the time.
pub mod Laws
use Prim.Native.String.{len}
use mera_drive.Base.{
  ℕ, ◌+◌, ◌-◌, ◌*◌, String, Bool, true, false, not, ◌||◌, ◌==◌, ltb, ◌<>◌, if◌then◌else◌,
}
use mera_drive.Base.Result.{Result, ok, err, Act}
use mera_drive.Base.Act.{pure, raise, lift, perform, ◌>>=◌, ◌>>◌}
use mera_drive.Apperr.{Code, Failure, Fault, fail, fail_with}
use mera_drive.Store.{User, Session, expired}
use mera_drive.Google.Errors.{second}
use mera_drive.Sqlite.Tables.{Tables}
use mera_drive.Sqlite.Users
use mera_drive.Sqlite.Sessions

abbrev pub touch_interval : ℕ
touch_interval = 300 * second

-- What internal/cryptobox and Go's slices of bytes give.
pub record Crypto : Type 0 where
  pub hash_token : String → String
  pub sign_hmac : String → String
  pub slice : ℕ → String → String

abbrev is_missing : Failure → Bool
is_missing Failure.store_not_found = true
is_missing _ = false

-- A statement with its error turned into one of the service.
unfoldable pub or_error :
    {A : Type 0} → (Failure → Result Fault A) → Act Tables Failure A → Act Tables Fault A
or_error f call t = let (reply, t') = call t in elim reply [ ok a ↦ (ok a, t') | err e ↦ (f e, t') ]

unfoldable pub missing_or : {A : Type 0} → String → String → Failure → Result Fault A
missing_or gone broken f =
    if is_missing f then fail Code.unauthorized gone else fail_with Code.internal broken f

-- The deletion whose error is dropped.
abbrev drop_session : Session → Tables → Tables
drop_session s t = (Sessions.delete s.id t).1

-- The last step of `Resolve`: `last_seen_at` is written at most once in an interval.
unfoldable pub seen : Session → User → ℕ → Act Tables Fault (User × Session)
seen s u now t =
    let (reply, t') = Sessions.touch s.id now t in
    if ltb touch_interval (now - s.last_seen_at)
    then elim reply [
      | ok _ ↦ (ok (u, record s { last_seen_at = now }), t')
      | err f ↦ (fail_with Code.internal "Could not update your session." f, t')
    ]
    else (ok (u, s), t)

-- The user of a session that is not expired.
unfoldable pub user_of : Session → ℕ → Act Tables Fault (User × Session)
unfolding seen missing_or
user_of s now t =
    let (reply, t') = Users.get_by_id s.user_id t in
    elim reply [
      | ok u ↦ seen s u now t'
      | err f ↦ (
        missing_or "Your account no longer exists." "Could not read your account." f,
        if is_missing f then drop_session s t' else t',
      )
    ]

module _ (crypto : Crypto) where
  unfoldable pub truncate : String → ℕ → String
  truncate s max = if ltb max (len s) then crypto.slice max s else s

  unfoldable pub new_session : String → String → String → String → String → ℕ → ℕ → Session
  unfolding truncate
  new_session id token user_id user_agent ip now ttl = record {
    id = id;
    user_id = user_id;
    token_hash = crypto.hash_token token;
    user_agent = truncate user_agent 512;
    ip_address = truncate ip 64;
    created_at = now;
    last_seen_at = now;
    expires_at = now + ttl;
  }

  -- `token` is the random token, or why there is none.
  unfoldable pub issue :
      Result Failure String
      → String
      → String
      → String
      → String
      → ℕ
      → ℕ
      → Act Tables Fault (String × Session)
  unfolding or_error new_session
  issue (err f) id user_id user_agent ip now ttl =
      lift (fail_with Code.internal "Could not start your session." f)
  issue (ok token) id user_id user_agent ip now ttl = do
    _ ←
        or_error (fail_with Code.internal "Could not start your session.")
          (Sessions.create (new_session id token user_id user_agent ip now ttl))
    pure (token, new_session id token user_id user_agent ip now ttl)

  unfoldable pub resolve : String → ℕ → Act Tables Fault (User × Session)
  unfolding or_error missing_or user_of
  resolve token now =
      if token == "" then lift (fail Code.unauthorized "You are not signed in.") else do
        s ←
            or_error
              (missing_or "Your session is no longer valid. Please sign in again."
                "Could not read your session.")
              (Sessions.get_by_token_hash (crypto.hash_token token))
        λ t.
            if expired s now
            then (
              fail Code.unauthorized "Your session has expired. Please sign in again.",
              drop_session s t,
            )
            else user_of s now t

  unfoldable pub csrf_token : String → String
  csrf_token session_token = crypto.sign_hmac ("csrf:" <> crypto.hash_token session_token)

  unfoldable pub verify_csrf : String → String → Bool
  unfolding csrf_token
  verify_csrf session_token presented =
      if session_token == "" || presented == ""
      then false
      else csrf_token session_token == presented

unfoldable pub revoke : String → Act Tables Fault (Unit {0})
revoke session_id t =
    let (reply, t') = Sessions.delete session_id t in
    elim reply [
      | ok u ↦ (ok tt, t')
      | err f ↦
          (if is_missing f then ok tt else fail_with Code.internal "Could not sign you out." f, t')
    ]

unfoldable pub revoke_all : String → Act Tables Fault (Unit {0})
unfolding or_error
revoke_all user_id =
    or_error (fail_with Code.internal "Could not sign you out everywhere.")
      (Sessions.delete_of_user user_id)
