-- ===== src/Auth/SignIn.antt =====
-- internal/auth/state.go: the state that goes through the OAuth round trip, signed instead of
-- stored. The HMAC of internal/cryptobox, JSON and base64 are the operations of a `Signer`; the
-- nonce and the time are arguments. `issued_at` is in seconds, other times in nanoseconds.
pub mod Trip
use mera_drive.Base.{
  ℕ, ◌+◌, ◌*◌, ◌/◌, String, Bool, true, false, not, ◌&&◌, ◌||◌, Option, none, some, ◌==◌, ltb, ◌<>◌,
  cut, if◌then◌else◌,
}
use mera_drive.Base.Result.{Result, ok, err, ◌>>=◌}
use mera_drive.Apperr.{Code, Failure, Fault, fail, fail_with}
use mera_drive.Google.Errors.{second}

-- `Intent`; a text that is none of the four is kept.
pub data Intent : Type 0 where
  login link reconnect upgrade : Intent
  unknown : String → Intent

unfoldable pub is_valid_intent : Intent → Bool
is_valid_intent (Intent.unknown s) = false
is_valid_intent _ = true

unfoldable pub requires_session : Intent → Bool
requires_session Intent.login = false
requires_session _ = true

unfoldable pub requires_account : Intent → Bool
requires_account Intent.reconnect = true
requires_account Intent.upgrade = true
requires_account _ = false

abbrev pub state_ttl : ℕ
state_ttl = 900 * second

abbrev pub minute : ℕ
minute = 60 * second

-- The code point of ".".
abbrev pub dot : ℕ
dot = 46

pub record State : Type 0 where
  pub nonce : String
  pub intent : Intent
  pub scope : String
  pub account_id : String
  pub next : String
  pub issued_at : ℕ

pub record Signer : Type 0 where
  pub sign_hmac : String → String
  -- json.Marshal and json.Unmarshal
  pub marshal : State → Result Failure String
  pub unmarshal : String → Option State
  -- base64.RawURLEncoding
  pub encode_string : String → String
  pub decode_string : String → Option String

abbrev pub invalid {ℓ} : {A : Type ℓ} → Result Fault A
invalid = fail Code.bad_request "This sign-in link is no longer valid. Please start again."

abbrev pub stamped : State → String → ℕ → State
stamped state nonce now = record state { nonce = nonce; issued_at = now / second }

unfoldable pub split_token : String → Result Fault (String × String)
unfolding cut
split_token token = elim (cut dot token) [
  | none ↦ invalid
  | some (encoded, signature) ↦
      if encoded == "" || signature == "" then invalid else ok (encoded, signature)
]

-- The checks on the state itself: the nonce of the browser, the intent, the age.
unfoldable pub check_state : String → ℕ → State → Result Fault State
unfolding is_valid_intent
check_state cookie_nonce now state =
    if cookie_nonce == "" || not (state.nonce == cookie_nonce)
    then invalid
    else if not (is_valid_intent state.intent)
    then invalid
    else if ltb (now + minute) (state.issued_at * second)
        || ltb (state.issued_at * second + state_ttl) now
    then fail Code.bad_request "This sign-in took too long to complete. Please start again."
    else ok state

module _ (signer : Signer) where
  -- The token of an encoded payload.
  abbrev pub seal : String → String
  seal encoded = encoded <> "." <> signer.sign_hmac encoded

  unfoldable pub sign_state : Result Failure String → ℕ → State → Result Fault (String × String)
  sign_state (err f) now state = fail_with Code.internal "Could not start the Google sign-in." f
  sign_state (ok nonce) now state = elim (signer.marshal (stamped state nonce now)) [
    | err f ↦ fail_with Code.internal "Could not start the Google sign-in." f
    | ok payload ↦ ok (seal (signer.encode_string payload), nonce)
  ]

  -- `VerifyHMAC`
  unfoldable pub verify_hmac : String → String → Bool
  verify_hmac message signature = signer.sign_hmac message == signature

  unfoldable pub read_payload : String → Result Fault State
  read_payload encoded = elim (signer.decode_string encoded) [
    | none ↦ invalid
    | some payload ↦ elim (signer.unmarshal payload) [ none ↦ invalid | some state ↦ ok state ]
  ]

  unfoldable pub verify_state : String → String → ℕ → Result Fault State
  unfolding split_token verify_hmac read_payload check_state
  verify_state token cookie_nonce now = do
    parts ← split_token token
    if not (verify_hmac parts.0 parts.1)
        then invalid
        else do state ← read_payload parts.0; check_state cookie_nonce now state
