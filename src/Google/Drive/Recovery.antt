-- ===== src/Google/Drive/Recovery.antt =====
-- internal/google/drive.go, call: a short outage of Google is survived.
use mera_drive.Base.{
  ℕ, zero, suc, ◌+◌, ◌≤◌, ◌<◌, Bool, true, false, eqb, Bool-cases, Option, none, some, ◌≡◌, ◌⊎◌,
  inl, inr, refl, arith,
}
use mathlib.Core.Path.{subst}
use mera_drive.Base.Result.{Result, ok, err, Result-cases}
use mera_drive.Apperr.{Error, Failure, app, is_retryable}
use mera_drive.Google.Errors.{map_api_error, map_transport_error, reason, one_of, rate_reasons}
use mera_drive.Google.Errors.Laws.{known, map_api_error-Retryable}
use mera_drive.Google.Drive.{
  Net, CallSpec, Response, done, again, max_attempts, attempts_of, pause, backoff_for, decode_into,
  judge, attempt_once, attempts_from, encoded, call,
}

-- A request that fails for a while: no connection, or a failed response whose reason is a rate
-- limit, or whose reason the table does not have and whose status is 429 or at least 500.
abbrev pub IsOutage : {A : Type 0} → Result Failure (Response A) → Type 0
IsOutage (err f) = Unit {0}
IsOutage (ok r) =
    (300 ≤ r.status)
    × ((one_of (reason r.envelope) rate_reasons ≡ true)
        ⊎ ((known (reason r.envelope) ≡ false) × ((r.status ≡ 429) ⊎ (500 ≤ r.status))))

abbrev pub IsAnswer : {A : Type 0} → Result Failure (Response A) → Type 0
IsAnswer (err f) = ⊥
IsAnswer {A} (ok r) = (200 ≤ r.status) × (r.status < 300) × ((a : A) × (r.decoded ≡ ok a))

-- A network that answers once `down` requests have failed, and is not made worse by a wait.
pub record Recovering {W Body A : Type 0} (net : Net W Body A) (spec : CallSpec Body) (down : W → ℕ)
    : Type 0 where
  pub encodes : encoded net spec ≡ none
  pub builds : net.build spec ≡ none
  pub waits : (d : ℕ) (w : W) → ((net.wait d w).0 ≡ none) × (down (net.wait d w).1 ≤ down w)
  pub draws : (n : ℕ) (w : W) → down (net.random n w).1 ≤ down w
  pub fails :
      (w : W) → 0 < down w → IsOutage (net.send spec w).0 × (down (net.send spec w).1 < down w)
  pub answers : (w : W) → down w ≡ 0 → IsAnswer (net.send spec w).0

outage_retried :
    {A : Type 0} (out : A) (wanted : Bool) (r : Response A)
    → IsOutage (ok r)
    → (e : Error) × (judge out wanted r ≡ again e)
unfolding judge
outage_retried out wanted r (high, cause) =
    let e = map_api_error r.status r.envelope r.retry_after in
    let retried : is_retryable (app e) ≡ true =
      (map_api_error-Retryable r.status r.envelope r.retry_after).1 cause in
    (e, ground arith)

answer_taken :
    {A : Type 0} (out : A) (wanted : Bool) (r : Response A) (a : A)
    → 200 ≤ r.status
    → r.status < 300
    → r.decoded ≡ ok a
    → (b : A) × (judge out wanted r ≡ done (ok b))
unfolding judge decode_into
answer_taken out true r a low high d = elim (Bool-cases (eqb r.status 204)) [
  | inl e ↦ (out, ground arith)
  | inr e ↦ (a, ground arith)
]
answer_taken out false r a low high d = (out, ground arith)

module _ {W Body A : Type 0} (net : Net W Body A) (spec : CallSpec Body) (down : W → ℕ)
    (h : Recovering net spec down) (out : A) (wanted : Bool) where
  pause-none :
      (attempt : ℕ) (last : Option Error) (w : W)
      → ((pause net attempt last w).0 ≡ none) × (down (pause net attempt last w).1 ≤ down w)
  unfolding pause backoff_for
  pause-none attempt last w = grind (arith, h.waits, h.draws)

  attempt_down :
      (w : W)
      → 0 < down w
      → (e : Error) × ((attempt_once net out wanted spec w).0 ≡ again e)
        × (down (attempt_once net out wanted spec w).1 < down w)
  unfolding attempt_once
  attempt_down w up =
      let (outage, less) = h.fails w up in
      let built = h.builds in
      elim (Result-cases (net.send spec w).0) [
        | inr (f, e) ↦
            (map_transport_error (net.done (net.send spec w).1) f, ground arith, ground arith)
        | inl (r, e) ↦
            let (x, retried) = outage_retried out wanted r (subst IsOutage e outage) in
            (x, ground arith, ground arith)
      ]

  attempt_up :
      (w : W) → down w ≡ 0 → (a : A) × ((attempt_once net out wanted spec w).0 ≡ done (ok a))
  unfolding attempt_once
  attempt_up w up =
      let built = h.builds in
      elim (Result-cases (net.send spec w).0) [
        | inr (f, e) ↦ absurd (subst IsAnswer e (h.answers w up))
        | inl (r, e) ↦
            let (low, high, (a, decoded)) = subst IsAnswer e (h.answers w up) in
            let (b, taken) = answer_taken out wanted r a low high decoded in (b, ground arith)
      ]

  attempts_from-recovers :
      (left attempt : ℕ) (last : Option Error) (w : W)
      → down w < left
      → (a : A) × ((attempts_from net out wanted spec left attempt last w).0 ≡ ok a)
  unfolding attempts_from
  attempts_from-recovers zero attempt last w l = absurd (omega arith)
  attempts_from-recovers (suc left) attempt last w l =
      let (go, less) = pause-none attempt last w in
      let w1 = (pause net attempt last w).1 in
      elim (zero_or_pos (down w1)) [
        | inl z ↦ let (a, e) = attempt_up w1 z in (a, ground arith)
        | inr p ↦
            let (x, e, fewer) = attempt_down w1 p in
            let (a, later) =
              attempts_from-recovers left (attempt + 1) (some x)
                (attempt_once net out wanted spec w1).1 (omega arith) in
            (a, ground arith)
      ]
    where
      zero_or_pos : (n : ℕ) → (n ≡ 0) ⊎ (0 < n)
      zero_or_pos zero = inl refl
      zero_or_pos (suc n) = inr (omega arith)

-- An outage in which at most three more requests fail is survived: a call that may be repeated,
-- over a network that then answers by a 2xx status whose body is read, succeeds, when the request
-- can be encoded and built and no wait is interrupted. A request of the outage fails for want of a
-- connection, or by a status of 300 or more whose reason is a rate limit, or by a status of 429 or
-- of 500 or more whose reason is none that the table of reasons has: a response without a reason or
-- with `backendError` is such, one with `notFound` is not.
pub call-recovers :
    {W Body A : Type 0} (net : Net W Body A) (spec : CallSpec Body) (down : W → ℕ) (out : A)
    (wanted : Bool) (w : W)
    → Recovering net spec down
    → spec.idempotent ≡ true
    → down w < max_attempts
    → (a : A) × ((call net out wanted spec w).0 ≡ ok a)
unfolding call
call-recovers net spec down out wanted w h i l =
    let encodes = h.encodes in
    let (a, e) =
      attempts_from-recovers net spec down h out wanted (attempts_of spec) 0 none w
        (ground arith) in
    (a, ground arith)
