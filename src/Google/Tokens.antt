-- ===== src/Google/Tokens.antt =====
-- internal/google/tokens.go: the cache of access tokens. The map is a list of entries by account
-- id. `others` is what other goroutines do to the manager before the flight of a caller runs, and a
-- `Role` says whose function the flight runs.
pub mod Cache
use Prim.Native.Nat.{ℕ}
use mera_drive.Base.{
  ◌+◌, ◌*◌, String, Bool, true, false, ◌&&◌, ◌||◌, not, Option, none, some, List, [], ◌∷◌, ◌==◌,
  ltb, leb, eqb, if◌then◌else◌,
}
use mera_drive.Base.Result.{Result, ok, err, Act}
use mera_drive.Apperr.{Code, Fault, fail}
use mera_drive.Google.Errors.{second}

abbrev pub refresh_skew : ℕ
refresh_skew = 60 * second

abbrev pub default_token_lifetime : ℕ
default_token_lifetime = 3300 * second

-- `Token`; the zero time is 0.
pub record Token : Type 0 where
  pub access_token : String
  pub refresh_token : String
  pub expiry : ℕ
  pub granted_scopes : List String

pub record Entry : Type 0 where
  pub access_token : String
  pub expiry : ℕ
  pub fingerprint : String

-- What the manager uses: `Refresher`, the clock, and the hash of a refresh token.
pub record Refresher (W : Type 0) : Type 0 where
  pub refresh : String → Act W Fault Token
  pub now : W → ℕ
  pub fingerprint_of : String → String

-- `TokenManager`, with the world that it calls into.
pub record Manager (W : Type 0) : Type 0 where
  pub entries : List (String × Entry)
  pub world : W

unfoldable pub find : String → List (String × Entry) → Option Entry
find id [] = none
find id ((k, e) ∷ rest) = if k == id then some e else find id rest

unfoldable pub remove : String → List (String × Entry) → List (String × Entry)
remove id [] = []
remove id ((k, e) ∷ rest) =
    let others = remove id rest in if k == id then others else (k, e) ∷ others

-- The test of `cached` on an entry, at a time.
unfoldable pub usable : Entry → String → ℕ → Option String
usable e fingerprint now =
    if not (e.fingerprint == fingerprint) || leb e.expiry (now + refresh_skew)
    then none
    else some e.access_token

-- The part of a caller in `flight.Do`. The flight's key is the account id alone: a caller that
-- finds one under way joins it, and is given what the function of its leader returned, which had
-- the refresh token of the leader.
pub data Role : Type 0 where
  leads : Role
  joins : (leader_token : String) → Role

-- The refresh token that the flight's function was made with.
unfoldable pub flown_with : Role → String → String
flown_with Role.leads refresh_token = refresh_token
flown_with (Role.joins leader_token) refresh_token = leader_token

module _ {W : Type 0} (r : Refresher W) where
  unfoldable pub cached : String → String → Manager W → Option String
  unfolding find usable
  cached id fingerprint m = elim (find id m.entries) [
    | none ↦ none
    | some e ↦ usable e fingerprint (r.now m.world)
  ]

  -- The entry that a fresh token leaves in the cache.
  unfoldable pub entry_of : Token → String → ℕ → Entry
  entry_of token fingerprint now = record {
    access_token = token.access_token;
    expiry = if eqb token.expiry 0 then now + default_token_lifetime else token.expiry;
    fingerprint = fingerprint;
  }

  -- The function that the flight runs, of the caller that leads it.
  unfoldable pub renew : String → String → Manager W → Result Fault String × Manager W
  unfolding cached entry_of remove
  renew id refresh_token m =
      let fingerprint = r.fingerprint_of refresh_token in
      let (reply, w) = r.refresh refresh_token m.world in
      elim (cached id fingerprint m) [
        | some token ↦ (ok token, m)
        | none ↦ elim reply [
          | err f ↦ (err f, record m { world = w })
          | ok token ↦ (
            ok token.access_token,
            record {
              entries = (id, entry_of token fingerprint (r.now w)) ∷ remove id m.entries;
              world = w;
            },
          )
        ]
      ]

  -- The check of what the flight returned.
  unfoldable pub checked : Result Fault String → Result Fault String
  checked (err f) = err f
  checked (ok token) =
      if token == "" then fail Code.internal "Google returned an empty access token." else ok token

  unfoldable pub access_token :
      (Manager W → Manager W) → Role → String → String → Manager W → Result Fault String × Manager W
  unfolding checked flown_with
  access_token others role id refresh_token m =
      let (value, m') = renew id (flown_with role refresh_token) (others m) in
      elim (cached id (r.fingerprint_of refresh_token) m) [
        | some token ↦ (ok token, m)
        | none ↦ (checked value, m')
      ]

  unfoldable pub forget : String → Manager W → Manager W
  unfolding remove
  forget id m = record m { entries = remove id m.entries }
