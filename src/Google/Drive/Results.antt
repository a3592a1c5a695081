-- ===== src/Google/Drive/Results.antt =====
-- internal/google/drive.go, call: where its result comes from.
use mera_drive.Base.{
  ℕ, zero, suc, ◌+◌, ◌≤◌, ◌<◌, Bool, true, Option, none, some, ◌≡◌, ◌⊎◌, inl, inr, refl, arith,
}
use mera_drive.Base.Result.{Result, ok, Result-cases}
use mera_drive.Apperr.{Error, Fault, app, is_retryable}
use mera_drive.Google.Drive.{
  Net, CallSpec, Response, Outcome, done, again, attempts_of, pause, decode_into, judge,
  attempt_once, attempts_from, call,
}

-- A value that comes from a response of the 2xx class.
pub record FromSuccess {W Body A : Type 0} (net : Net W Body A) (out : A) (wanted : Bool)
    (spec : CallSpec Body) (a : A) : Type 0 where
  pub world : W
  pub response : Response A
  pub sent : (net.send spec world).0 ≡ ok response
  pub success : (200 ≤ response.status) × (response.status < 300)
  pub value : decode_into out wanted response ≡ ok a

Outcome-cases :
    {A : Type 0} (o : Outcome A)
    → ((r : Result Fault A) × (o ≡ done r)) ⊎ ((e : Error) × (o ≡ again e))
Outcome-cases (done r) = inl (r, refl)
Outcome-cases (again e) = inr (e, refl)

module _ {W Body A : Type 0} (net : Net W Body A) (out : A) (wanted : Bool)
    (spec : CallSpec Body) where
  judge-done :
      (r : Response A) (a : A)
      → judge out wanted r ≡ done (ok a)
      → (200 ≤ r.status) × (r.status < 300) × (decode_into out wanted r ≡ ok a)
  unfolding judge
  judge-done r a h = ground arith

  judge-again :
      (r : Response A) (e : Error) → judge out wanted r ≡ again e → is_retryable (app e) ≡ true
  unfolding judge
  judge-again r e h = ground arith

  attempt_sent :
      (w : W) (a : A)
      → (attempt_once net out wanted spec w).0 ≡ done (ok a)
      → (r : Response A) × ((net.send spec w).0 ≡ ok r) × (judge out wanted r ≡ done (ok a))
  unfolding attempt_once
  attempt_sent w a h = elim (Result-cases (net.send spec w).0) [
    | inl (r, e) ↦ (r, e, ground arith)
    | inr (f, e) ↦ absurd (ground arith)
  ]

  attempt_done :
      (w : W) (a : A)
      → (attempt_once net out wanted spec w).0 ≡ done (ok a)
      → FromSuccess net out wanted spec a
  attempt_done w a h =
      let (r, sent, verdict) = attempt_sent w a h in
      let (low, high, value) = judge-done r a verdict in
      record { world = w; response = r; sent = sent; success = (low, high); value = value }

  step_ok :
      (left attempt : ℕ) (last : Option Error) (w : W) (a : A)
      → (attempts_from net out wanted spec (suc left) attempt last w).0 ≡ ok a
      → ((attempt_once net out wanted spec (pause net attempt last w).1).0 ≡ done (ok a))
        ⊎ ((e : Error) × ((attempts_from net out wanted spec left
                (attempt + 1)
                (some e)
                (attempt_once net out wanted spec (pause net attempt last w).1).1).0
              ≡ ok a))
  unfolding attempts_from
  step_ok left attempt last w a h =
      elim (Outcome-cases (attempt_once net out wanted spec (pause net attempt last w).1).0) [
        | inl (r, e) ↦ inl (ground arith)
        | inr (x, e) ↦ inr (x, ground arith)
      ]

  attempts_from-FromSuccess :
      (left attempt : ℕ) (last : Option Error) (w : W) (a : A)
      → (attempts_from net out wanted spec left attempt last w).0 ≡ ok a
      → FromSuccess net out wanted spec a
  attempts_from-FromSuccess zero attempt last w a h = unfold attempts_from in absurd (ground arith)
  attempts_from-FromSuccess (suc left) attempt last w a h = elim (step_ok left attempt last w a h) [
    | inl now ↦ attempt_done _ a now
    | inr (e, later) ↦ attempts_from-FromSuccess left (attempt + 1) (some e) _ a later
  ]

-- When a call succeeds, one of its requests could be answered, in some state of the network, by a
-- status from 200 to 299, and the value is what decodeInto makes of that response.
pub call-FromSuccess :
    {W Body A : Type 0} (net : Net W Body A) (out : A) (wanted : Bool) (spec : CallSpec Body)
    (w : W) (a : A)
    → (call net out wanted spec w).0 ≡ ok a
    → FromSuccess net out wanted spec a
call-FromSuccess net out wanted spec w a h =
    attempts_from-FromSuccess net out wanted spec (attempts_of spec) 0 none w a
      (unfold call in ground arith)
