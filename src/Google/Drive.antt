-- ===== src/Google/Drive.antt =====
-- internal/google/drive.go: one Drive request with its retries. The HTTP client, the timer and the
-- random numbers are the operations of a `Net`; times are nanoseconds.
pub mod Backoff
pub mod Retries
pub mod Results
pub mod Recovery
mod Examples
use mera_drive.Base.{
  ℕ, zero, suc, ◌+◌, ◌-◌, ◌*◌, ◌/◌, ◌^◌, ◌<◌, String, Bool, true, false, not, ◌&&◌, ◌||◌, Option,
  none, some, List, [], ◌∷◌, ◌==◌, ltb, leb, eqb, if◌then◌else◌,
}
use mera_drive.Base.Result.{Result, ok, err, Act}
use mera_drive.Apperr.{
  Code, Error, Failure, Fault, app, raw, fail, fail_with, plain, error, is_retryable,
}
use mera_drive.Google.Errors.{Envelope, second, retry_after_key, map_api_error, map_transport_error}

abbrev pub max_attempts : ℕ
max_attempts = 4

abbrev pub base_backoff : ℕ
base_backoff = 250_000_000

abbrev pub max_backoff : ℕ
max_backoff = 4 * second

-- `callSpec`; the path with its query is one text, and the body is what json.Marshal is given.
pub record CallSpec (Body : Type 0) : Type 0 where
  pub method : String
  pub target : String
  pub body : Option Body
  pub idempotent : Bool

-- A response: the status, the parsed Retry-After header, the body read as an error and as a value.
pub record Response (A : Type 0) : Type 0 where
  pub status : ℕ
  pub retry_after : ℕ
  pub envelope : Envelope
  pub decoded : Result Failure A

-- What is not the client's own code.
pub record Net (W Body A : Type 0) : Type 0 where
  -- json.Marshal
  pub encode : Body → Result Failure String
  -- http.NewRequestWithContext
  pub build : CallSpec Body → Option Failure
  -- http.Client.Do
  pub send : CallSpec Body → Act W Failure (Response A)
  -- `ctx.Err() != nil`
  pub done : W → Bool
  -- waits, or tells why the context ended
  pub wait : ℕ → W → Option Failure × W
  -- rand.Int63n n, a number below n
  pub random : ℕ → W → ℕ × W

-- `appErr.Details["retry_after_seconds"]`
unfoldable pub lookup_detail : String → List (String × ℕ) → Option ℕ
lookup_detail key [] = none
lookup_detail key ((k, v) ∷ rest) = if k == key then some v else lookup_detail key rest

abbrev pub cap : ℕ → ℕ
cap delay = if ltb max_backoff delay then max_backoff else delay

-- The delay that Google asked for, if it did.
unfoldable pub asked_delay : Option Error → Option ℕ
unfolding lookup_detail
asked_delay none = none
asked_delay (some e) = elim (lookup_detail retry_after_key e.details) [
  | none ↦ none
  | some seconds ↦ if ltb 0 seconds then some (cap (seconds * second)) else none
]

-- The exponential delay, before the jitter.
unfoldable pub delay_of : ℕ → ℕ
delay_of attempt = cap (base_backoff * 2 ^ (attempt - 1))

-- One attempt ends the call, or leaves `lastErr` for the next.
pub data Outcome (A : Type 0) : Type 0 where
  done : Result Fault A → Outcome A
  again : Error → Outcome A

-- `decodeInto`: `wanted` tells that `out` is not nil, and `out` is what it holds before.
unfoldable pub decode_into : {A : Type 0} → A → Bool → Response A → Result Fault A
decode_into out wanted r = if not wanted || eqb r.status 204 then ok out else elim r.decoded [
  | ok a ↦ ok a
  | err f ↦ fail_with Code.upstream_unavailable "Google Drive returned an unreadable response." f
]

-- The verdict on a response: `done` for a success and for what is not retried.
unfoldable pub judge : {A : Type 0} → A → Bool → Response A → Outcome A
unfolding decode_into
judge out wanted r =
    let failure = map_api_error r.status r.envelope r.retry_after in
    if leb 200 r.status && ltb r.status 300
    then done (decode_into out wanted r)
    else if is_retryable (app failure)
    then again failure
    else done (err (app failure))

abbrev pub attempts_of : {Body : Type 0} → CallSpec Body → ℕ
attempts_of spec = if spec.idempotent then max_attempts else 1

module _ {W Body A : Type 0} (net : Net W Body A) where
  pub backoff_for : ℕ → Option Error → W → ℕ × W
  unfolding asked_delay delay_of
  backoff_for attempt last w = elim (asked_delay last) [
    | some delay ↦ (delay, w)
    | none ↦ let (r, w') = net.random (delay_of attempt) w in (r + delay_of attempt / 2, w')
  ]

  -- `sleepCtx`
  sleep : ℕ → W → Option Failure × W
  sleep d w = if eqb d 0 then (none, w) else net.wait d w

  -- What the loop does before an attempt: an error ends the call.
  pub pause : ℕ → Option Error → W → Option Error × W
  unfolding sleep
  pause attempt last w =
      let (delay, w1) = backoff_for attempt last w in
      let (stop, w2) = sleep delay w1 in
      if ltb 0 attempt
      then elim stop [
        | none ↦ (none, w2)
        | some f ↦ (some (map_transport_error (net.done w2) f), w2)
      ]
      else (none, w)

  -- The body of the loop after the pause.
  pub attempt_once : A → Bool → CallSpec Body → W → Outcome A × W
  attempt_once out wanted spec w = elim (net.build spec) [
    | some f ↦ (done (fail_with Code.internal "Could not build the Google Drive request." f), w)
    | none ↦
        let (reply, w') = net.send spec w in
        elim reply [
          | err f ↦ (again (map_transport_error (net.done w') f), w')
          | ok r ↦ (judge out wanted r, w')
        ]
  ]

  -- The loop: the attempts that are left, the number of the next one, and `lastErr`.
  pub attempts_from : A → Bool → CallSpec Body → ℕ → ℕ → Option Error → W → Result Fault A × W
  attempts_from out wanted spec zero attempt last w = elim last [
    | none ↦ (fail Code.upstream_unavailable "Google Drive did not respond.", w)
    | some e ↦ (err (app e), w)
  ]
  attempts_from out wanted spec (suc left) attempt last w =
      let (stop, w1) = pause attempt last w in
      let (outcome, w2) = attempt_once out wanted spec w1 in
      let rest = λ (e : Error). attempts_from out wanted spec left (attempt + 1) (some e) w2 in
      elim stop [
        | some e ↦ (err (app e), w1)
        | none ↦ elim outcome [ done r ↦ (r, w2) | again e ↦ rest e ]
      ]

  -- json.Marshal of the body, where there is one.
  pub encoded : CallSpec Body → Option Failure
  encoded spec = elim spec.body [
    | none ↦ none
    | some b ↦ elim (net.encode b) [ ok _ ↦ none | err f ↦ some f ]
  ]

  pub call : A → Bool → CallSpec Body → W → Result Fault A × W
  unfolding encoded
  call out wanted spec w = elim (encoded spec) [
    | some f ↦ (fail_with Code.internal "Could not encode the Google Drive request." f, w)
    | none ↦ attempts_from out wanted spec (attempts_of spec) 0 none w
  ]
